-- ===== src/Pipeline/Promotion.antt =====
-- app/pipeline/accept.py: `_promote_flagged_threats`, by which the flagged threats of accepted
-- scenarios enter the threat library.
pub mod Kept
pub mod Frame
pub mod Extends
pub mod Scope
use tsg.Base.{
  ℕ, String, Bool, true, false, not, ◌&&◌, Option, none, some, List, [], ◌∷◌, ◌==◌, if◌then◌else◌,
  nat_eq, string_eq, any, contains, select_where, find_where, update_where,
}
use tsg.Enums.{GroundingStatus, AuditEventType, grounding_eq}
use tsg.Models.{Db, SessionRow, ThreatRow, CandidateRow, AuditDetail}
use tsg.Python.{Builtins}
use tsg.World.{World, SessionRef, ref_of, AuditEntry, plain_entry, on_db, guid, audit}
use tsg.Dal.Masters.{
  same_id, upsert_threat_type, upsert_threat_catalogue, upsert_threat_actor, link_type_actor,
}
use tsg.Pipeline.Grounding.{find_category}

-- `_default_sector_id`: the parent sector, else the session's own.
unfoldable pub default_sector_id : List ℕ → Option ℕ
default_sector_id [] = none
default_sector_id (own ∷ []) = some own
default_sector_id (own ∷ parent ∷ rest) = some parent

-- `resolved`, a dict for each kind of key.
pub record Memo : Type 0 where
  pub categories : List (String × Option ℕ)
  pub types : List ((String × String) × ℕ)
  pub entries : List ((ℕ × String) × ℕ)
  pub actors : List (String × ℕ)
  pub links : List (ℕ × ℕ)

abbrev pub empty_memo : Memo
empty_memo = record { categories = []; types = []; entries = []; actors = []; links = [] }

-- A current scenario of the threat was accepted.
unfoldable pub scenario_accepted : ℕ → Db → ThreatRow → Bool
scenario_accepted sid db t =
    any
      (λ st.
        st.session_id == sid
        && st.threat_id == t.threat_id
        && not st.superseded
        && any
            (λ o.
              o.session_id == sid
              && o.scoped_threat_id == st.scoped_threat_id
              && not o.superseded
              && o.accepted)
            db.outputs)
      db.scoped

unfoldable pub is_promotable : ℕ → List ℕ → Db → ThreatRow → Bool
is_promotable sid good_subs db t =
    t.session_id == sid
    && not t.superseded
    && contains good_subs t.subsystem_id
    && t.grounding_status == GroundingStatus.flagged
    && scenario_accepted sid db t

-- The UPDATE of the threat to its library ids.
abbrev pub point_to : ℕ → ℕ → Option ℕ → Db → Db
point_to threat type_id catalogue_id db = record db {
  threats =
      update_where (λ t. t.threat_id == threat)
        (λ t. record t { threat_type_id = some type_id; threat_catalogue_id = catalogue_id })
        db.threats;
}

module _ (py : Builtins) (uuid4 identity : ℕ → ℕ) where
  abbrev recall_category : String → Memo → World → Option ℕ × Memo
  recall_category name memo w = elim (find_where (λ e. e.0 == name) memo.categories) [
    | some e ↦ (e.1, memo)
    | none ↦
        let found = find_category py name w.db in
        (found, record memo { categories = (name, found) ∷ memo.categories })
  ]

  -- The type that the row names.
  unfoldable pub named_type : Option ℕ → ThreatRow → Memo → World → ℕ × Memo × World
  named_type sector t memo w =
      elim (find_where (λ e. e.0.0 == t.threat_category && e.0.1 == t.threat_type) memo.types) [
        | some e ↦ (e.1, memo, w)
        | none ↦
            let (category, memo₁) = recall_category t.threat_category memo w in
            let (id, w₁) = guid identity w in
            let (type_id, db) = upsert_threat_type t.threat_type category sector id w₁.db in
            (
              type_id,
              record memo₁ { types = ((t.threat_category, t.threat_type), type_id) ∷ memo₁.types },
              record w₁ { db = db },
            )
      ]

  -- The stored type, else the named one.
  unfoldable pub resolve_type : Option ℕ → ThreatRow → Memo → World → ℕ × Memo × World
  resolve_type sector t memo w = elim t.threat_type_id [
    | some type_id ↦ (type_id, memo, w)
    | none ↦ named_type sector t memo w
  ]

  unfoldable pub resolve_entry : Option ℕ → ℕ → String → Memo → World → ℕ × Memo × World
  resolve_entry sector type_id name memo w =
      elim (find_where (λ e. e.0.0 == type_id && e.0.1 == name) memo.entries) [
        | some e ↦ (e.1, memo, w)
        | none ↦
            let (id, w₁) = guid identity w in
            let (catalogue_id, db) = upsert_threat_catalogue name type_id sector id w₁.db in
            (
              catalogue_id,
              record memo { entries = ((type_id, name), catalogue_id) ∷ memo.entries },
              record w₁ { db = db },
            )
      ]

  -- The catalogue entry of the proposed name; a row without a name keeps what it has.
  unfoldable pub resolve_catalogue :
      Option ℕ → ℕ → ThreatRow → Memo → World → Option ℕ × Memo × World
  resolve_catalogue sector type_id t memo w = elim t.threat_name [
    | none ↦ (t.threat_catalogue_id, memo, w)
    | some name ↦
        (if name == ""
          then (t.threat_catalogue_id, memo, w)
          else let (catalogue_id, memo', w') = resolve_entry sector type_id name memo w in
            (some catalogue_id, memo', w'))
  ]

  unfoldable pub resolve_actor : String → Memo → World → ℕ × Memo × World
  resolve_actor name memo w = elim (find_where (λ e. e.0 == name) memo.actors) [
    | some e ↦ (e.1, memo, w)
    | none ↦
        let (id, w₁) = guid identity w in
        let (actor_id, db) = upsert_threat_actor name id w₁.db in
        (actor_id, record memo { actors = (name, actor_id) ∷ memo.actors }, record w₁ { db = db })
  ]

  -- Links the actor, and tells whether the link is new.
  unfoldable pub resolve_link : ℕ → ℕ → Memo → World → Bool × Memo × World
  resolve_link type_id actor_id memo w =
      if any (λ e. e.0 == type_id && e.1 == actor_id) memo.links
      then (false, memo, w)
      else let (is_new, db) = link_type_actor type_id actor_id w.db in
        (is_new, record memo { links = (type_id, actor_id) ∷ memo.links }, record w { db = db })

  -- `_promote_actors`: the names whose link is new.
  unfoldable pub promote_actors : ℕ → List String → Memo → World → List String × Memo × World
  promote_actors type_id [] memo w = ([], memo, w)
  promote_actors type_id (name ∷ names) memo w =
      let (actor_id, memo₁, w₁) = resolve_actor name memo w in
      let (is_new, memo₂, w₂) = resolve_link type_id actor_id memo₁ w₁ in
      let (linked, memo₃, w₃) = promote_actors type_id names memo₂ w₂ in
      (if is_new then name ∷ linked else linked, memo₃, w₃)

  abbrev or_empty : Option String → String
  or_empty none = ""
  or_empty (some name) = name

  abbrev candidate_row : ℕ → SessionRow → ThreatRow → ℕ → Option ℕ → Option ℕ → World → CandidateRow
  candidate_row id x t type_id catalogue_id user w = record {
    candidate_id = id;
    tenant_id = x.tenant_id;
    entity_id = x.entity_id;
    session_id = x.session_id;
    proposed_category = t.threat_category;
    proposed_type = t.threat_type;
    proposed_name = or_empty t.threat_name;
    threat_type_id = type_id;
    threat_catalogue_id = catalogue_id;
    reviewed_by = user;
    reviewed_at = w.now;
    created_at = w.now;
  }

  abbrev promotion_entry : Option ℕ → AuditEventType → AuditDetail → AuditEntry
  promotion_entry user event_type detail = record (plain_entry event_type) {
    actor_user_id = user;
    detail = detail;
  }

  -- The row is pointed to the library, with its trail.
  unfoldable pub record_promotion :
      SessionRow → Option ℕ → Option ℕ → ThreatRow → ℕ → Option ℕ → List String → World → World
  record_promotion x user sector t type_id catalogue_id linked w =
      let w₁ = on_db (point_to t.threat_id type_id catalogue_id) w in
      let promoted = AuditDetail.promoted type_id t.threat_id catalogue_id sector linked in
      let w₂ =
        audit uuid4 (ref_of x) (promotion_entry user AuditEventType.library_promoted promoted) w₁ in
      let (id, w₃) = guid uuid4 w₂ in
      let row = candidate_row id x t type_id catalogue_id user w₃ in
      let w₄ = on_db (λ db. record db { candidates = row ∷ db.candidates }) w₃ in
      audit uuid4 (ref_of x)
        (promotion_entry user AuditEventType.candidate_reconciled
          (AuditDetail.reconciled id t.threat_id))
        w₄

  abbrev promotes_nothing : ThreatRow → ℕ → Option ℕ → List String → Bool
  promotes_nothing t type_id catalogue_id [] =
      same_id (some type_id) t.threat_type_id && same_id catalogue_id t.threat_catalogue_id
  promotes_nothing t type_id catalogue_id (name ∷ names) = false

  -- One round of the loop.
  unfoldable pub promote_one :
      SessionRow → Option ℕ → Option ℕ → ThreatRow → Memo → World → Memo × World
  promote_one x user sector t memo w =
      let (type_id, memo₁, w₁) = resolve_type sector t memo w in
      let (catalogue_id, memo₂, w₂) = resolve_catalogue sector type_id t memo₁ w₁ in
      let actors = if t.actors_validated then t.actors else [] in
      let (linked, memo₃, w₃) = promote_actors type_id actors memo₂ w₂ in
      (
        memo₃,
        if promotes_nothing t type_id catalogue_id linked
            then w₃
            else record_promotion x user sector t type_id catalogue_id linked w₃,
      )

  unfoldable pub promote_each :
      SessionRow → Option ℕ → Option ℕ → List ThreatRow → Memo → World → World
  promote_each x user sector [] memo w = w
  promote_each x user sector (t ∷ ts) memo w =
      let (memo', w') = promote_one x user sector t memo w in promote_each x user sector ts memo' w'

  -- `_promote_flagged_threats`
  unfoldable pub promote_flagged_threats : SessionRow → List ℕ → Option ℕ → World → World
  promote_flagged_threats x good_subs user w =
      promote_each x user (default_sector_id x.sector_ids)
        (select_where (is_promotable x.session_id good_subs w.db) w.db.threats) empty_memo w
