-- ===== src/Pipeline/Session.antt =====
-- app/pipeline/tasks.py: the board, the record of a failure, and the loop over the supporting systems
-- of a session.
pub mod Board
pub mod Locks
pub mod Failures
use Prim.Native.String.{◌++◌ as ◌⧺◌}
use tsg.Base.{
  ℕ, suc, String, Bool, true, false, ◌&&◌, Option, none, some, List, [], ◌∷◌, ◌++◌, map,
  if◌then◌else◌, update_where,
}
use tsg.Enums.{WorkflowStage, StageStatus, SubsystemLevel, AuditEventType, SseEventType}
use tsg.Json.{Json, Fields, fields_of}
use tsg.Models.{Db, SessionRow, StageRow, Subsystem, AuditDetail}
use tsg.Dal.Sessions.{is_session, update_sessions, load_session}
use tsg.Dal.Stages.{
  acquire_lock, release_lock, update_stages, in_levels, is_in_flight, with_status,
  subsystem_has_pending_work,
}
use tsg.Dal.Outputs.{Threat, active_threats, get_active_profile}
use tsg.Failure.{Failure, Attempt, returns, raises, unreadable, failed}
use tsg.World.{
  World, SessionRef, ref_of, Event, AuditEntry, plain_entry, commit, rollback, on_db, publish, guid,
  audit,
}
use tsg.Pipeline.Outcome.{decide_session_outcome}
use tsg.Pipeline.Run.{Services, Run, pure, act, read, carry_on, ◌>>=◌, ◌>>◌}
use tsg.Pipeline.Stages.{work_levels, write_profile, find_threats}
use tsg.Pipeline.Scenarios.{write_scenarios}

-- `_EPOCH`
abbrev pub first_epoch : ℕ
first_epoch = 1

module _ (sv : Services) where
  open sv use {uuid4}

  -- One cell of the board.
  abbrev pub seeded_row : ℕ → SessionRow → ℕ → SubsystemLevel → World → StageRow
  seeded_row id x ss level w = record {
    state_id = id;
    session_id = x.session_id;
    tenant_id = x.tenant_id;
    entity_id = x.entity_id;
    subsystem_id = ss;
    level = level;
    status = StageStatus.idle;
    generation_epoch = first_epoch;
    active_task_id = none;
    lease_expires_at = none;
    heartbeat_at = none;
    attempt_count = 0;
    error_message = none;
    updated_at = w.now;
  }

  unfoldable pub seed_cell : SessionRow → ℕ → SubsystemLevel → World → World
  seed_cell x ss level w =
      let (id, w₁) = guid uuid4 w in
      on_db (λ db. record db { stages = seeded_row id x ss level w₁ ∷ db.stages }) w₁

  unfoldable pub seed_levels : SessionRow → ℕ → List SubsystemLevel → World → World
  seed_levels x ss [] w = w
  seed_levels x ss (level ∷ rest) w = seed_levels x ss rest (seed_cell x ss level w)

  -- `set_up_progress_tracking`
  unfoldable pub set_up_progress_tracking : SessionRow → List Subsystem → World → World
  set_up_progress_tracking x [] w = w
  set_up_progress_tracking x (sub ∷ subs) w =
      set_up_progress_tracking x subs
        (seed_levels x sub.id (work_levels ++ SubsystemLevel.lock ∷ []) w)

  -- What the client may see of an exception: `repr(exc)` of an unreadable reply, and nothing else.
  unfoldable pub client_message : Failure → String
  client_message (unreadable stage expected) =
      "LLMResponseParseError('" ⧺ stage ⧺ ": LLM response failed JSON parsing (expected " ⧺ expected
      ⧺ ")')"
  client_message failed = "stage processing failed"

  abbrev is_unfinished : ℕ → ℕ → StageRow → Bool
  is_unfinished sid ss r = in_levels sid ss work_levels r && is_in_flight r.status

  -- The work cells that will not finish now → ERROR.
  unfoldable pub flag_unfinished : ℕ → ℕ → ℕ → String → Db → Db
  flag_unfinished now sid ss message =
      update_stages (is_unfinished sid ss) (with_status now StageStatus.error (some message))

  abbrev failure_entry : ℕ → String → AuditEntry
  failure_entry ss message = record (plain_entry AuditEventType.stage_error) {
    subsystem_id = some ss;
    detail = AuditDetail.failure message ss;
  }

  abbrev pub failure_event : ℕ → ℕ → String → ℕ → Event
  failure_event sid ss message now = record {
    event_type = SseEventType.error;
    session_id = sid;
    subsystem_id = some ss;
    subsystem_index = none;
    stage = none;
    status = none;
    epoch = none;
    message = some message;
    at = now;
  }

  -- `_record_failure`
  unfoldable pub record_failure : SessionRow → ℕ → Failure → World → World
  unfolding client_message
  record_failure x ss e w =
      let w₁ = rollback w in
      let message = client_message e in
      let w₂ = on_db (flag_unfinished w₁.now x.session_id ss message) w₁ in
      publish (failure_event x.session_id ss message w.now)
        (audit uuid4 (ref_of x) (failure_entry ss message) w₂)

  abbrev pub advanced_entry : ℕ → ℕ → AuditEntry
  advanced_entry ss idx = record (plain_entry AuditEventType.subsystem_advanced) {
    subsystem_id = some ss;
    detail = AuditDetail.subsystem_at idx ss;
  }

  abbrev pub started_event : ℕ → ℕ → ℕ → ℕ → Event
  started_event sid ss idx now = record {
    event_type = SseEventType.subsystem_started;
    session_id = sid;
    subsystem_id = some ss;
    subsystem_index = some idx;
    stage = none;
    status = none;
    epoch = none;
    message = none;
    at = now;
  }

  -- `_announce_starting_supporting_system`
  unfoldable pub announce : SessionRow → ℕ → ℕ → World → World
  announce x ss idx w =
      if subsystem_has_pending_work x.session_id ss w.db
      then publish (started_event x.session_id ss idx w.now)
          (audit uuid4 (ref_of x) (advanced_entry ss idx) w)
      else w

  abbrev show_index : ℕ → ℕ → World → World
  show_index sid idx w =
      on_db
        (update_sessions (is_session sid)
          (λ r. record r { current_subsystem_index = idx; updated_at = w.now }))
        w

  -- `profile or {}`, with the saved profile where the stage gave nothing new.
  abbrev profile_now : ℕ → ℕ → Option Json → World → Fields
  profile_now sid ss (some j) w = fields_of j
  profile_now sid ss none w = elim (get_active_profile sid ss w.db) [
    | none ↦ Fields.end
    | some j ↦ fields_of j
  ]

  -- The saved threats, where the stage gave none.
  abbrev threats_now : ℕ → ℕ → List Threat → World → List Threat
  threats_now sid ss [] w = active_threats sid ss w.db
  threats_now sid ss (t ∷ ts) w = t ∷ ts

  abbrev pub generated_entry : ℕ → ℕ → AuditEntry
  generated_entry ss count = record (plain_entry AuditEventType.generation_complete) {
    stage = some WorkflowStage.scenario_generation;
    subsystem_id = some ss;
    detail = AuditDetail.generated ss count;
  }

  -- The body of the `try`.
  unfoldable pub run_stages : SessionRow → Subsystem → ℕ → ℕ → Run (Unit {0})
  run_stages x sub idx task = do
    act (show_index x.session_id idx)
    act (announce x sub.id idx)
    new_profile ← write_profile sv x sub task first_epoch
    act commit
    profile ← read (profile_now x.session_id sub.id new_profile)
    new_threats ← find_threats sv x sub profile task first_epoch [] []
    act commit
    threats ← read (threats_now x.session_id sub.id new_threats)
    count ← write_scenarios sv x sub threats task first_epoch none
    act (audit uuid4 (ref_of x) (generated_entry sub.id count))
    act commit

  -- `except Exception`
  unfoldable pub recover : SessionRow → ℕ → Attempt (Unit {0}) × World → World
  recover x ss (returns _, w) = w
  recover x ss (raises e, w) = commit (record_failure x ss e w)

  -- `finally`
  unfoldable pub let_go : ℕ → ℕ → World → World
  let_go sid ss w = commit (on_db (release_lock w.now sid ss) w)

  -- Work under the lock of a supporting system; skipped where the lock is held.
  unfoldable pub with_lock : SessionRow → ℕ → ℕ → Run (Unit {0}) → World → World
  with_lock x ss task body w =
      let (won, db') = acquire_lock sv.settings w.now x.session_id ss task w.db in
      let w₁ = record w { db = db' } in
      if won then let_go x.session_id ss (recover x ss (body w₁)) else w₁

  -- One round.
  unfoldable pub process_one : SessionRow → Subsystem → ℕ → ℕ → World → World
  unfolding with_lock
  process_one x sub idx task w = with_lock x sub.id task (run_stages x sub idx task) w

  unfoldable pub process_each : SessionRow → List Subsystem → ℕ → ℕ → World → World
  process_each x [] idx task w = w
  process_each x (sub ∷ subs) idx task w =
      process_each x subs (suc idx) task (process_one x sub idx task w)

  -- `_process_all_supporting_systems`
  unfoldable pub process_all_supporting_systems : ℕ → ℕ → World → World
  process_all_supporting_systems sid task w = elim (load_session sid w.db) [
    | none ↦ w
    | some x ↦ (decide_session_outcome uuid4 (ref_of x) (process_each x x.subsystems 0 task w)).1
  ]
