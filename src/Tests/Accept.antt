-- ===== src/Tests/Accept.antt =====
-- An accept of a session with one flagged threat, whose type the library does not know.
use mathlib.Core.List.{Memᴰ}
use tsg.Base.{
  ℕ, ◌+◌, ◌≡◌, refl, true, false, none, some, List, [], ◌∷◌, arith, map, ◌==◌, ◌&&◌, not, nat_eq,
  All,
}
use tsg.Enums.{
  SessionStatus, WorkflowStage, StageStatus, SubsystemLevel, GroundingStatus, level_iff,
}
use tsg.Models.{Db, SessionRow, StageRow, ThreatRow, OutputRow}
use tsg.World.{World}
use tsg.Dal.Sessions.{get_session, complete_session}
use tsg.Dal.Stages.{acquire_lock, release_lock, subsystem_ids_at_level}
use tsg.Dal.Stages.Cells.{UniqueCells}
use tsg.Dal.Stages.Mutex.{lock_status}
use tsg.Dal.Outputs.{mark_profiles_accepted, mark_scenarios_accepted}
use tsg.Dal.Contract.Scenarios.{contract_row, accepted_scenarios}
use tsg.Dal.Masters.{
  upsert_threat_type, upsert_threat_catalogue, upsert_threat_actor, link_type_actor,
}
use tsg.Pipeline.Grounding.{find_category}
use tsg.Pipeline.Locks.{take_locks, release_all}
use tsg.Pipeline.Promotion.{
  default_sector_id, scenario_accepted, is_promotable, named_type, resolve_type, resolve_entry,
  resolve_catalogue, resolve_actor, resolve_link, promote_actors, record_promotion, promote_one,
  promote_each, promote_flagged_threats,
}
use tsg.Pipeline.Promotion.Frame.{unlinked}
use tsg.Pipeline.Accept.{
  accept_conflict, accepted, refused, reviewed_subsystems, collect_ids, assert_masters_active,
  record_review, approve, under_locks, accept_session,
}
use tsg.Pipeline.Accept.Refused.{OnlyLocks, accept_session_refused}
use tsg.Pipeline.Accept.Effect.{Reviewed, is_under_review}
use tsg.Pipeline.Accept.Locks.{accept_session_locks}
use tsg.Pipeline.Accept.Masters.{ActiveMasters}
use tsg.Pipeline.Accept.Guards.{accept_session_guards}
use tsg.Pipeline.Accept.Delivery.{accept_session-Reviewed, accept_session_delivers}
use tsg.Tests.Data.{plain, settings, session_row, stage_row, db_of, world_of}
use tsg.Tests.Contract.{threat_row, scoped_row, output_row}

abbrev ids : ℕ → ℕ
ids n = 700 + n

abbrev review_session : SessionRow
review_session = record (session_row 1 SessionStatus.active WorkflowStage.review) {
  stage_status = StageStatus.awaiting_decision;
}

abbrev new_threat : ThreatRow
new_threat = record threat_row {
  threat_name = some "worm";
  actors = "insider" ∷ [];
  library_threat_type = none;
  library_threat_name = none;
  threat_type_id = none;
  threat_catalogue_id = none;
  grounding_status = GroundingStatus.flagged;
}

abbrev new_output : OutputRow
new_output = record output_row { accepted = false }

abbrev board : StageStatus → List StageRow
board status =
    stage_row 60 SubsystemLevel.lock status
    ∷ stage_row 62 SubsystemLevel.scenarios StageStatus.awaiting_decision
    ∷ []

abbrev to_review : StageStatus → Db
to_review status = record (db_of (review_session ∷ []) (board status)) {
  threats = new_threat ∷ [];
  scoped = scoped_row ∷ [];
  outputs = new_output ∷ [];
}

to_review_cells : (status : StageStatus) → UniqueCells (to_review status)
to_review_cells status sid ss level =
    ground (arith, level_iff SubsystemLevel.lock level, level_iff SubsystemLevel.scenarios level)

abbrev pub ready : World
ready = world_of (to_review StageStatus.idle)

abbrev busy : World
busy = world_of (to_review StageStatus.running)

-- The accept goes through, and the threat's type, entry and actor are new in the library.
accepts :
    let (answer, w') = accept_session settings plain ids ids 1 10 (some 5) none ready in
    (answer ≡ accepted)
    × (map (λ r. r.threat_type_name) w'.db.threat_types ≡ "malware" ∷ [])
    × (map (λ r. r.threat_name) w'.db.threat_catalogue ≡ "worm" ∷ [])
    × (map (λ r. r.threat_actor_name) w'.db.threat_actors ≡ "insider" ∷ [])
    × (map (λ o. o.accepted) w'.db.outputs ≡ true ∷ [])
    × (map (λ r. r.session_status) w'.db.sessions ≡ SessionStatus.completed ∷ [])
unfolding get_session complete_session acquire_lock release_lock subsystem_ids_at_level
    mark_profiles_accepted mark_scenarios_accepted upsert_threat_type upsert_threat_catalogue
    upsert_threat_actor link_type_actor find_category take_locks release_all default_sector_id
    scenario_accepted is_promotable named_type resolve_type resolve_entry resolve_catalogue
    resolve_actor resolve_link promote_actors record_promotion promote_one promote_each
    promote_flagged_threats reviewed_subsystems collect_ids assert_masters_active record_review
    approve under_locks accept_session
accepts = (refl, refl, refl, refl, refl, refl)

stops_at_a_lock :
    (accept_session settings plain ids ids 1 10 (some 5) none busy).0 ≡ refused accept_conflict
unfolding get_session acquire_lock subsystem_ids_at_level take_locks reviewed_subsystems under_locks
    accept_session
stops_at_a_lock = refl

accept_session_refused_example :
    OnlyLocks 1 busy (accept_session settings plain ids ids 1 10 (some 5) none busy).1
accept_session_refused_example =
    accept_session_refused settings plain ids ids 1 10 (some 5) none busy accept_conflict
      stops_at_a_lock

accept_session-Reviewed_example :
    let w' = (accept_session settings plain ids ids 1 10 (some 5) none ready).1 in
    Reviewed 1 500 none ready.db ready.db w'.db
    × (w'.saved ≡ ready.saved)
    × (w'.events ≡ ready.events)
accept_session-Reviewed_example =
    accept_session-Reviewed settings plain ids ids 1 10 (some 5) none ready accepts.0

accept_session_delivers_example :
    let w' = (accept_session settings plain ids ids 1 10 (some 5) none ready).1 in
    (t' : ThreatRow) × (unlinked t' ≡ unlinked new_threat)
    × Memᴰ (contract_row new_output t') (accepted_scenarios 1 w'.db)
accept_session_delivers_example =
    accept_session_delivers settings plain ids ids 1 10 (some 5) none ready new_output scoped_row
      new_threat accepts.0 (Memᴰ.head refl) (Memᴰ.head refl) (Memᴰ.head refl) refl refl refl refl
      refl

accept_session_locks_example :
    lock_status 1 7 (accept_session settings plain ids ids 1 10 (some 5) none busy).1.db
    ≡ some StageStatus.running
accept_session_locks_example =
    accept_session_locks settings plain ids ids 1 10 (some 5) none busy 1 7 StageStatus.running
      (to_review_cells StageStatus.running) (to_review_cells StageStatus.running) refl refl

accept_session_guards_example :
    ((x : SessionRow) × (get_session 1 10 ready.db ≡ some x)
      × (x.current_stage ≡ WorkflowStage.review)
      × (x.stage_status ≡ StageStatus.awaiting_decision))
    × ((ss : ℕ) (status : StageStatus)
        → lock_status 1 ss ready.db ≡ some status
        → status ≡ StageStatus.idle)
    × All
        (λ t.
          (t.session_id == 1 && not t.superseded && is_under_review 1 t.subsystem_id ready.db)
            ≡ true
          → ActiveMasters ready.db t)
        ready.db.threats
accept_session_guards_example =
    accept_session_guards settings plain ids ids 1 10 (some 5) none ready
      (to_review_cells StageStatus.idle) accepts.0

-- After the marks, with a second threat whose entry the library knows.
abbrev marked : World
marked = world_of (record (to_review StageStatus.idle) {
  threats = new_threat ∷ record threat_row { threat_id = 910 } ∷ [];
  outputs = output_row ∷ [];
})
