-- ===== src/Pipeline/Accept.antt =====
-- app/pipeline/accept.py: the final review, by which a human accepts the scenarios of a session.
pub mod Cases
pub mod Refused
pub mod Effect
pub mod Locks
pub mod Masters
pub mod Guards
pub mod Delivery
use tsg.Base.{
  ℕ, String, Bool, true, false, not, ◌&&◌, Option, none, some, List, [], ◌∷◌, ◌++◌, map, ◌==◌,
  if◌then◌else◌, nat_eq, any, contains, select_where,
}
use tsg.Enums.{
  WorkflowStage, StageStatus, SubsystemLevel, GroundingStatus, AuditEventType, AuditDecision,
  workflow_stage_eq, stage_status_eq, grounding_eq,
}
use tsg.Models.{Db, SessionRow, ThreatRow, AuditDetail}
use tsg.Python.{Builtins}
use tsg.Dal.Settings.{Settings}
use tsg.Dal.Sessions.{get_session, complete_session}
use tsg.Dal.Stages.{subsystem_ids_at_level}
use tsg.Dal.Outputs.{mark_profiles_accepted, mark_scenarios_accepted}
use tsg.World.{World, ref_of, AuditEntry, plain_entry, on_db, audit}
use tsg.Pipeline.Locks.{take_locks, release_all}
use tsg.Pipeline.Promotion.{promote_flagged_threats}

-- The exceptions of `accept_session`; `master_inactive` names the ids that are not active.
pub data Refusal : Type 0 where
  entity_forbidden : Refusal
  accept_conflict : Refusal
  master_inactive : List ℕ → Refusal

pub data Answer : Type 0 where
  accepted : Answer
  refused : Refusal → Answer

-- The CurrentStage and StageStatus of the review barrier.
abbrev pub at_review : SessionRow → Bool
at_review x =
    x.current_stage == WorkflowStage.review && x.stage_status == StageStatus.awaiting_decision

-- The subsystems whose scenarios wait for the reviewer.
unfoldable pub reviewed_subsystems : ℕ → Db → List ℕ
unfolding subsystem_ids_at_level
reviewed_subsystems sid =
    subsystem_ids_at_level sid SubsystemLevel.scenarios (some StageStatus.awaiting_decision)

-- The current threats of the subsystems.
abbrev pub is_grounded_row : ℕ → List ℕ → ThreatRow → Bool
is_grounded_row sid good_subs t =
    t.session_id == sid && not t.superseded && contains good_subs t.subsystem_id

abbrev pub with_id : Option ℕ → List ℕ → List ℕ
with_id none ids = ids
with_id (some i) ids = i ∷ ids

-- `{t for ... in rows if t is not None}`
unfoldable pub collect_ids : (ThreatRow → Option ℕ) → List ThreatRow → List ℕ
collect_ids id_of [] = []
collect_ids id_of (t ∷ ts) = with_id (id_of t) (collect_ids id_of ts)

-- A type counts on every band, the entry of a flagged row does not.
abbrev pub stored_type : ThreatRow → Option ℕ
stored_type t = t.threat_type_id

abbrev pub stored_entry : ThreatRow → Option ℕ
stored_entry t =
    if t.grounding_status == GroundingStatus.flagged then none else t.threat_catalogue_id

abbrev pub type_is_active : Db → ℕ → Bool
type_is_active db i = any (λ r. r.threat_type_id == i && r.is_active) db.threat_types

abbrev pub entry_is_active : Db → ℕ → Bool
entry_is_active db i = any (λ r. r.threat_catalogue_id == i && r.is_active) db.threat_catalogue

abbrev pub none_left : List ℕ → Option Refusal → Option Refusal
none_left [] next = next
none_left (i ∷ is) next = some (master_inactive (i ∷ is))

-- `_assert_masters_active`
unfoldable pub assert_masters_active : ℕ → List ℕ → Db → Option Refusal
unfolding collect_ids
assert_masters_active sid good_subs db =
    let rows = select_where (is_grounded_row sid good_subs) db.threats in
    none_left (select_where (λ i. not (type_is_active db i)) (collect_ids stored_type rows)) (
      none_left (select_where (λ i. not (entry_is_active db i)) (collect_ids stored_entry rows))
        none)

abbrev decision_of : Option (List ℕ) → AuditDecision
decision_of none = AuditDecision.accept
decision_of (some ids) = AuditDecision.partial

abbrev detail_of : Option (List ℕ) → AuditDetail
detail_of none = AuditDetail.nothing
detail_of (some ids) = AuditDetail.subset ids

abbrev review_entry : Option ℕ → Option (List ℕ) → AuditEventType → AuditEntry
review_entry user subset event_type = record (plain_entry event_type) {
  decision = some (decision_of subset);
  actor_user_id = user;
  detail = detail_of subset;
}

module _ (s : Settings) (py : Builtins) (uuid4 identity : ℕ → ℕ) where
  -- The three audit rows.
  unfoldable pub record_review :
      SessionRow → Option ℕ → Option (List ℕ) → List AuditEventType → World → World
  record_review x user subset [] w = w
  record_review x user subset (e ∷ es) w =
      record_review x user subset es (audit uuid4 (ref_of x) (review_entry user subset e) w)

  -- What an accept writes, once every lock is held and the masters are active.
  unfoldable pub approve : SessionRow → List ℕ → Option ℕ → Option (List ℕ) → World → World
  approve x good_subs user subset w =
      let sid = x.session_id in
      let w₁ = on_db (mark_profiles_accepted sid good_subs) w in
      let w₂ = on_db (mark_scenarios_accepted sid good_subs subset) w₁ in
      let w₃ = promote_flagged_threats py uuid4 identity x good_subs user w₂ in
      let w₄ = on_db (complete_session w₃.now sid) w₃ in
      record_review x user subset
        (AuditEventType.profiles_accepted ∷ AuditEventType.scenarios_accepted
          ∷ AuditEventType.review_decision ∷ [])
        w₄

  abbrev pub settle_masters :
      SessionRow → List ℕ → Option ℕ → Option (List ℕ) → Option Refusal → World → Answer × World
  settle_masters x good_subs user subset (some e) w = (refused e, w)
  settle_masters x good_subs user subset none w = (accepted, approve x good_subs user subset w)

  -- The body of the `try`, and its `finally`.
  unfoldable pub under_locks :
      SessionRow → List ℕ → Option ℕ → Option (List ℕ) → Bool × List ℕ × World → Answer × World
  under_locks x good_subs user subset (false, acquired, w) =
      (refused accept_conflict, release_all x.session_id acquired w)
  under_locks x good_subs user subset (true, acquired, w) =
      let (answer, w') =
        settle_masters x good_subs user subset (assert_masters_active x.session_id good_subs w.db)
          w in
      (answer, release_all x.session_id acquired w')

  -- The session that was found, once its gate is read.
  abbrev pub review_at : SessionRow → Option ℕ → Option (List ℕ) → World → Bool → Answer × World
  review_at x user subset w false = (refused accept_conflict, w)
  review_at x user subset w true =
      let sid = x.session_id in
      under_locks x (reviewed_subsystems sid w.db) user subset
        (take_locks s sid (subsystem_ids_at_level sid SubsystemLevel.lock none w.db) [] w)

  abbrev pub review_found : Option ℕ → Option (List ℕ) → World → Option SessionRow → Answer × World
  review_found user subset w none = (refused entity_forbidden, w)
  review_found user subset w (some x) = review_at x user subset w (at_review x)

  unfoldable pub accept_session : ℕ → ℕ → Option ℕ → Option (List ℕ) → World → Answer × World
  accept_session sid entity user subset w = review_found user subset w (get_session sid entity w.db)
