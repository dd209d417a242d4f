-- ===== src/Dal/Stages.antt =====
-- app/db/dal.py: the compare-and-set primitives on `Subsystem_Stage_State`, the reads of the stage
-- board, and the epochs of a regeneration.
pub mod Cells
pub mod Claim
pub mod Lock
pub mod Mutex
pub mod Epoch
pub mod Attempts
use tsg.Base.{
  ℕ, ◌+◌, max, String, Bool, true, not, ◌&&◌, ◌||◌, Option, none, some, List, [], ◌∷◌, map, ltb,
  ◌==◌, nat_eq, is_some_of, any, contains, select_where, update_where, cas_where,
}
use tsg.Enums.{
  SessionStatus, StageStatus, SubsystemLevel, session_status_eq, stage_status_eq, level_eq,
}
use tsg.Models.{Db, SessionRow, StageRow}
use tsg.Dal.Settings.{Settings}
use tsg.Dal.Sessions.{is_session}

-- The key of a stage row.
abbrev pub is_cell : ℕ → ℕ → SubsystemLevel → StageRow → Bool
is_cell sid ss level r = r.session_id == sid && r.subsystem_id == ss && r.level == level

-- `Status IN (IDLE, RUNNING)`
abbrev pub is_in_flight : StageStatus → Bool
is_in_flight s = s == StageStatus.idle || s == StageStatus.running

abbrev pub update_stages : (StageRow → Bool) → (StageRow → StageRow) → Db → Db
update_stages p f db = record db { stages = update_where p f db.stages }

abbrev pub cas_stages : (StageRow → Bool) → (StageRow → StageRow) → Db → Bool × Db
cas_stages p f db = let (won, rows) = cas_where p f db.stages in (won, record db { stages = rows })

-- The WHERE clause of `claim_stage`, apart from the key.
abbrev pub is_claimable : Settings → ℕ → ℕ → StageRow → Bool
is_claimable s epoch task r =
    r.generation_epoch == epoch
    && ltb r.attempt_count s.stage_max_attempts
    && (r.status == StageStatus.idle
        || r.status == StageStatus.error
        || (is_some_of r.active_task_id task && r.status == StageStatus.running))

abbrev pub claimed : Settings → ℕ → ℕ → StageRow → StageRow
claimed s now task r = record r {
  status = StageStatus.running;
  active_task_id = some task;
  lease_expires_at = some (now + s.stage_lease_seconds);
  heartbeat_at = some now;
  attempt_count = r.attempt_count + 1;
  updated_at = now;
}

unfoldable pub claim_stage : Settings → ℕ → ℕ → ℕ → SubsystemLevel → ℕ → ℕ → Db → Bool × Db
claim_stage s now sid ss level epoch task =
    cas_stages (λ r. is_cell sid ss level r && is_claimable s epoch task r) (claimed s now task)

abbrev pub is_active_session : ℕ → SessionRow → Bool
is_active_session sid r = is_session sid r && r.session_status == SessionStatus.active

abbrev pub locked : Settings → ℕ → ℕ → StageRow → StageRow
locked s now task r = record r {
  status = StageStatus.running;
  active_task_id = some task;
  lease_expires_at = some (now + s.stage_lease_seconds);
  updated_at = now;
}

unfoldable pub acquire_lock : Settings → ℕ → ℕ → ℕ → ℕ → Db → Bool × Db
acquire_lock s now sid ss task db =
    cas_stages
      (λ r.
        is_cell sid ss SubsystemLevel.lock r
        && r.status == StageStatus.idle
        && any (is_active_session sid) db.sessions)
      (locked s now task) db

abbrev pub released : ℕ → StageRow → StageRow
released now r = record r {
  status = StageStatus.idle;
  active_task_id = none;
  lease_expires_at = none;
  updated_at = now;
}

unfoldable pub release_lock : ℕ → ℕ → ℕ → Db → Db
release_lock now sid ss = update_stages (is_cell sid ss SubsystemLevel.lock) (released now)

abbrev pub with_status : ℕ → StageStatus → Option String → StageRow → StageRow
with_status now status error r = record r {
  status = status;
  error_message = error;
  lease_expires_at = none;
  updated_at = now;
}

unfoldable pub set_stage : ℕ → ℕ → ℕ → SubsystemLevel → StageStatus → Option String → Db → Db
set_stage now sid ss level status error =
    update_stages (is_cell sid ss level) (with_status now status error)

-- The work rows of a session: every row but the `_LOCK` rows.
abbrev pub is_work_row : ℕ → StageRow → Bool
is_work_row sid r = r.session_id == sid && not (r.level == SubsystemLevel.lock)

unfoldable pub stage_rows : ℕ → Db → List StageRow
stage_rows sid db = select_where (is_work_row sid) db.stages

abbrev has_status : Option StageStatus → StageRow → Bool
has_status none r = true
has_status (some status) r = r.status == status

unfoldable pub subsystem_ids_at_level : ℕ → SubsystemLevel → Option StageStatus → Db → List ℕ
subsystem_ids_at_level sid level status db =
    map (λ r. r.subsystem_id)
      (select_where (λ r. r.session_id == sid && r.level == level && has_status status r) db.stages)

unfoldable pub subsystem_has_pending_work : ℕ → ℕ → Db → Bool
subsystem_has_pending_work sid ss db =
    any (λ r. is_work_row sid r && r.subsystem_id == ss && is_in_flight r.status) db.stages

abbrev pub in_levels : ℕ → ℕ → List SubsystemLevel → StageRow → Bool
in_levels sid ss levels r = r.session_id == sid && r.subsystem_id == ss && contains levels r.level

-- `max(GenerationEpoch)`, 0 over no rows.
abbrev max_epoch : List StageRow → ℕ
max_epoch [] = 0
max_epoch (r ∷ rows) = max r.generation_epoch (max_epoch rows)

unfoldable pub next_epoch : ℕ → ℕ → List SubsystemLevel → Db → ℕ
next_epoch sid ss levels db = max_epoch (select_where (in_levels sid ss levels) db.stages) + 1

abbrev pub reset_row : ℕ → ℕ → StageRow → StageRow
reset_row now epoch r = record r {
  generation_epoch = epoch;
  status = StageStatus.idle;
  attempt_count = 0;
  error_message = none;
  updated_at = now;
}

unfoldable pub reset_stage_for_regen : ℕ → ℕ → ℕ → List SubsystemLevel → ℕ → Db → Db
reset_stage_for_regen now sid ss levels epoch =
    update_stages (in_levels sid ss levels) (reset_row now epoch)
