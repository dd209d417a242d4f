-- ===== src/Pipeline/Promotion/Kept.antt =====
-- The statements of `_promote_flagged_threats` of app/pipeline/accept.py, one by one: what each of them
-- keeps, the whole promotion keeps.
use tsg.Base.{
  ℕ, ◌≡◌, refl, String, Bool, true, false, ◌&&◌, Option, List, [], ◌∷◌, ◌==◌, nat_eq, string_eq,
  if◌then◌else◌, any, All, find_where, select_where, Option-cases, Bool-cases, inl, inr,
}
use tsg.Models.{Db, SessionRow, ThreatRow, CandidateRow, AuditRow}
use tsg.Python.{Builtins}
use tsg.World.{World}
use tsg.Dal.Outputs.{append_audit}
use tsg.Dal.Masters.{
  upsert_threat_type, upsert_threat_catalogue, upsert_threat_actor, link_type_actor,
}
use tsg.Pipeline.Promotion.{
  Memo, empty_memo, point_to, is_promotable, default_sector_id, named_type, resolve_type,
  resolve_entry, resolve_catalogue, resolve_actor, resolve_link, promote_actors, record_promotion,
  promote_one, promote_each, promote_flagged_threats,
}

-- `P` is kept by every statement, where only threats with an id in `Q` are written.
pub record Grows (P : Db → Type 0) (Q : ℕ → Type 0) : Type 0 where
  pub type_step :
      (name : String) (category sector : Option ℕ) (id : ℕ) (db : Db)
      → P db
      → P (upsert_threat_type name category sector id db).1
  pub entry_step :
      (name : String) (type_id : ℕ) (sector : Option ℕ) (id : ℕ) (db : Db)
      → P db
      → P (upsert_threat_catalogue name type_id sector id db).1
  pub actor_step : (name : String) (id : ℕ) (db : Db) → P db → P (upsert_threat_actor name id db).1
  pub link_step :
      (type_id actor_id : ℕ) (db : Db) → P db → P (link_type_actor type_id actor_id db).1
  pub point_step :
      (threat type_id : ℕ) (catalogue_id : Option ℕ) (db : Db)
      → Q threat
      → P db
      → P (point_to threat type_id catalogue_id db)
  pub candidate_step :
      (row : CandidateRow) (db : Db) → P db → P (record db { candidates = row ∷ db.candidates })
  pub audit_step : (row : AuditRow) (db : Db) → P db → P (append_audit row db)

-- The parts of a world that no statement writes.
abbrev pub SameOutside : World → World → Type 0
SameOutside v w = (w.saved ≡ v.saved) × (w.events ≡ v.events) × (w.now ≡ v.now)

module _ {P : Db → Type 0} {Q : ℕ → Type 0} (grows : Grows P Q) (py : Builtins)
    (uuid4 identity : ℕ → ℕ) (v : World) where
  open grows use {
    type_step, entry_step, actor_step, link_step, point_step, candidate_step, audit_step,
  }

  abbrev Fine : World → Type 0
  Fine w = P w.db × SameOutside v w

  -- The property, of the world that a step returns last.
  Good : {A : Type 0} → A × Memo × World → Type 0
  Good (a, memo, w) = Fine w

  named_type-Good :
      (sector : Option ℕ) (t : ThreatRow) (memo : Memo) (w : World)
      → Fine w
      → Good (named_type py uuid4 identity sector t memo w)
  unfolding named_type Good
  named_type-Good sector t memo w g =
      elim (Option-cases
        (find_where (λ x. x.0.0 == t.threat_category && x.0.1 == t.threat_type) memo.types)) [
          | inr (i, e) ↦ rw (named_type, e) g
          | inl e ↦ rw (named_type, e) (type_step t.threat_type _ sector _ w.db g.0, g.1)
        ]

  resolve_type-Good :
      (sector : Option ℕ) (t : ThreatRow) (memo : Memo) (w : World)
      → Fine w
      → Good (resolve_type py uuid4 identity sector t memo w)
  unfolding resolve_type Good named_type
  resolve_type-Good sector t memo w g = elim (Option-cases t.threat_type_id) [
    | inr (i, e) ↦ rw e g
    | inl e ↦ rw e (named_type-Good sector t memo w g)
  ]

  resolve_entry-Good :
      (sector : Option ℕ) (type_id : ℕ) (name : String) (memo : Memo) (w : World)
      → Fine w
      → Good (resolve_entry py uuid4 identity sector type_id name memo w)
  unfolding resolve_entry Good
  resolve_entry-Good sector type_id name memo w g =
      elim (Option-cases (find_where (λ x. x.0.0 == type_id && x.0.1 == name) memo.entries)) [
        | inr (i, e) ↦ rw (resolve_entry, e) g
        | inl e ↦ rw (resolve_entry, e) (entry_step name type_id sector _ w.db g.0, g.1)
      ]

  resolve_catalogue-Good :
      (sector : Option ℕ) (type_id : ℕ) (t : ThreatRow) (memo : Memo) (w : World)
      → Fine w
      → Good (resolve_catalogue py uuid4 identity sector type_id t memo w)
  unfolding resolve_catalogue Good
  resolve_catalogue-Good sector type_id t memo w g = elim (Option-cases t.threat_name) [
    | inl e ↦ rw e g
    | inr (name, e) ↦ elim (Bool-cases (name == "")) [
      | inl e' ↦ rw (e, e') g
      | inr e' ↦ rw (e, e') (resolve_entry-Good sector type_id name memo w g)
    ]
  ]

  resolve_actor-Good :
      (name : String) (memo : Memo) (w : World)
      → Fine w
      → Good (resolve_actor py uuid4 identity name memo w)
  unfolding resolve_actor Good
  resolve_actor-Good name memo w g =
      elim (Option-cases (find_where (λ x. x.0 == name) memo.actors)) [
        | inr (i, e) ↦ rw (resolve_actor, e) g
        | inl e ↦ rw (resolve_actor, e) (actor_step name _ w.db g.0, g.1)
      ]

  resolve_link-Good :
      (type_id actor_id : ℕ) (memo : Memo) (w : World)
      → Fine w
      → Good (resolve_link py uuid4 identity type_id actor_id memo w)
  unfolding resolve_link Good
  resolve_link-Good type_id actor_id memo w g =
      elim (Bool-cases (any (λ x. x.0 == type_id && x.1 == actor_id) memo.links)) [
        | inl e ↦ rw e g
        | inr e ↦ rw e (link_step type_id actor_id w.db g.0, g.1)
      ]

  promote_actors-Good :
      (type_id : ℕ) (names : List String) (memo : Memo) (w : World)
      → Fine w
      → Good (promote_actors py uuid4 identity type_id names memo w)
  unfolding promote_actors Good
  promote_actors-Good type_id [] memo w g = g
  promote_actors-Good type_id (name ∷ names) memo w g =
      let (actor_id, memo₁, w₁) = resolve_actor py uuid4 identity name memo w in
      let (is_new, memo₂, w₂) = resolve_link py uuid4 identity type_id actor_id memo₁ w₁ in
      promote_actors-Good type_id names memo₂ w₂
        (resolve_link-Good type_id actor_id memo₁ w₁ (resolve_actor-Good name memo w g))

  record_promotion-Good :
      (x : SessionRow) (user sector : Option ℕ) (t : ThreatRow) (type_id : ℕ)
      (catalogue_id : Option ℕ) (linked : List String) (w : World)
      → Q t.threat_id
      → Fine w
      → Fine (record_promotion py uuid4 identity x user sector t type_id catalogue_id linked w)
  unfolding record_promotion
  record_promotion-Good x user sector t type_id catalogue_id linked w q g = (
    audit_step _ _ (
        candidate_step _ _
          (audit_step _ _ (point_step t.threat_id type_id catalogue_id w.db q g.0))),
    g.1,
  )

  promote_one-Good :
      (x : SessionRow) (user sector : Option ℕ) (t : ThreatRow) (memo : Memo) (w : World)
      → Q t.threat_id
      → Fine w
      → Fine (promote_one py uuid4 identity x user sector t memo w).1
  unfolding promote_one Good
  promote_one-Good x user sector t memo w q g =
      let (type_id, memo₁, w₁) = resolve_type py uuid4 identity sector t memo w in
      let (catalogue_id, memo₂, w₂) =
        resolve_catalogue py uuid4 identity sector type_id t memo₁ w₁ in
      let actors = if t.actors_validated then t.actors else [] in
      let (linked, memo₃, w₃) = promote_actors py uuid4 identity type_id actors memo₂ w₂ in
      let g₁ = resolve_type-Good sector t memo w g in
      let g₂ = resolve_catalogue-Good sector type_id t memo₁ w₁ g₁ in
      let g₃ = promote_actors-Good type_id actors memo₂ w₂ g₂ in
      pick _ w₃ _ g₃ (record_promotion-Good x user sector t type_id catalogue_id linked w₃ q g₃)
    where
      pick : (b : Bool) (w₁ w₂ : World) → Fine w₁ → Fine w₂ → Fine (if b then w₁ else w₂)
      pick true w₁ w₂ h h' = h
      pick false w₁ w₂ h h' = h'

  promote_each-Good :
      (x : SessionRow) (user sector : Option ℕ) (ts : List ThreatRow) (memo : Memo) (w : World)
      → All (λ t. Q t.threat_id) ts
      → Fine w
      → Fine (promote_each py uuid4 identity x user sector ts memo w)
  unfolding promote_each
  promote_each-Good x user sector [] memo w qs g = g
  promote_each-Good x user sector (t ∷ ts) memo w (q, qs) g =
      let (memo', w') = promote_one py uuid4 identity x user sector t memo w in
      promote_each-Good x user sector ts memo' w' qs (promote_one-Good x user sector t memo w q g)

module _ {P : Db → Type 0} {Q : ℕ → Type 0} (grows : Grows P Q) (py : Builtins)
    (uuid4 identity : ℕ → ℕ) where
  pub promote_flagged_threats_keeps :
      (x : SessionRow) (good_subs : List ℕ) (user : Option ℕ) (w : World)
      → All
          (λ t. Q t.threat_id)
          (select_where (is_promotable x.session_id good_subs w.db) w.db.threats)
      → P w.db
      → let w' = promote_flagged_threats py uuid4 identity x good_subs user w in
        P w'.db × SameOutside w w'
  unfolding promote_flagged_threats
  promote_flagged_threats_keeps x good_subs user w qs h =
      promote_each-Good grows py uuid4 identity w x user (default_sector_id x.sector_ids) _
        empty_memo w qs (h, (refl, refl, refl))
