-- ===== src/Pipeline/Outcome.antt =====
-- app/pipeline/tasks.py: `decide_session_outcome` with `_send_to_review` and `_mark_session_failed`,
-- the single place where a session leaves the running state by itself.
pub mod Cases
pub mod Laws
pub mod Board
use tsg.Base.{
  ℕ, String, Bool, true, false, not, ◌&&◌, ◌||◌, Option, none, some, List, [], ◌∷◌, map, ◌==◌,
  if◌then◌else◌, any, cas_where,
}
use tsg.Enums.{
  SessionStatus, WorkflowStage, StageStatus, AuditEventType, SseEventType, session_status_eq,
  workflow_stage_eq, stage_status_eq,
}
use tsg.Models.{Db, SessionRow, StageRow, AuditDetail}
use tsg.Dal.Sessions.{is_session, cancelled_row}
use tsg.Dal.Stages.{stage_rows, is_in_flight}
use tsg.World.{World, SessionRef, Event, AuditEntry, plain_entry, commit, publish, on_db, audit}

pub data Outcome : Type 0 where
  review cancelled : Outcome

-- The guard of both transitions: active, and not at REVIEW.
abbrev pub may_finish : ℕ → SessionRow → Bool
may_finish sid r =
    is_session sid r
    && r.session_status == SessionStatus.active
    && not (r.current_stage == WorkflowStage.review)

abbrev pub review_row : ℕ → SessionRow → SessionRow
review_row now r = record r {
  current_stage = WorkflowStage.review;
  stage_status = StageStatus.awaiting_decision;
  updated_at = now;
}

-- `UPDATE Scenario_Session ...` and its row count.
abbrev pub cas_session : (SessionRow → Bool) → (SessionRow → SessionRow) → World → Bool × World
cas_session p f w =
    let (won, rows) = cas_where p f w.db.sessions in
    (won, on_db (λ db. record db { sessions = rows }) w)

abbrev entered_review : AuditEntry
entered_review = record (plain_entry AuditEventType.entered_review) {
  stage = some WorkflowStage.review;
}

abbrev all_failed : AuditEntry
all_failed = record (plain_entry AuditEventType.session_cancelled) {
  detail = AuditDetail.reason "all subsystems failed";
}

abbrev review_event : SessionRef → ℕ → Event
review_event s now = record {
  event_type = SseEventType.session_entered_review;
  session_id = s.session_id;
  subsystem_id = none;
  subsystem_index = none;
  stage = none;
  status = some StageStatus.awaiting_decision;
  epoch = none;
  message = none;
  at = now;
}

abbrev failed_event : SessionRef → ℕ → Event
failed_event s now = record {
  event_type = SseEventType.error;
  session_id = s.session_id;
  subsystem_id = none;
  subsystem_index = none;
  stage = none;
  status = none;
  epoch = none;
  message = some "session failed: all subsystems errored";
  at = now;
}

module _ (uuid4 : ℕ → ℕ) where
  -- `_send_to_review`
  pub send_to_review : SessionRef → World → Bool × World
  send_to_review s w =
      let (won, w') = cas_session (may_finish s.session_id) (review_row w.now) w in
      if won
      then (true, publish (review_event s w.now) (commit (audit uuid4 s entered_review w')))
      else (false, w')

  -- `_mark_session_failed`
  pub mark_session_failed : SessionRef → World → Bool × World
  mark_session_failed s w =
      let (won, w') = cas_session (may_finish s.session_id) (cancelled_row w.now) w in
      if won
      then (true, publish (failed_event s w.now) (commit (audit uuid4 s all_failed w')))
      else (false, w')

  abbrev report : Outcome → Bool × World → Option Outcome × World
  report o (won, w) = (if won then some o else none, w)

  abbrev pub statuses : ℕ → Db → List StageStatus
  statuses sid db = map (λ r. r.status) (stage_rows sid db)

  -- The rule on the statuses of the board: wait, go to REVIEW, fail, or leave a state that it does
  -- not know.
  pub decide : SessionRef → List StageStatus → World → Option Outcome × World
  unfolding send_to_review mark_session_failed
  decide s [] w = (none, w)
  decide s (x ∷ xs) w =
      if any is_in_flight (x ∷ xs)
      then (none, w)
      else if any (λ t. t == StageStatus.awaiting_decision) (x ∷ xs)
      then report review (send_to_review s w)
      else if any (λ t. t == StageStatus.error) (x ∷ xs)
      then report cancelled (mark_session_failed s w)
      else (none, w)

  pub decide_session_outcome : SessionRef → World → Option Outcome × World
  unfolding decide
  decide_session_outcome s w = decide s (statuses s.session_id w.db) w
