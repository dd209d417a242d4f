-- ===== src/Pipeline/Outcome/Board.antt =====
-- `decide_session_outcome` and the stage board: it reads the board, and changes no row of it.
use tsg.Base.{ℕ, Bool, true, false, Option, none, List, [], ◌∷◌, any, if◌then◌else◌, cas_where}
use tsg.Enums.{StageStatus, stage_status_eq}
use tsg.Models.{StageRow}
use tsg.Dal.Sessions.{cancelled_row}
use tsg.Dal.Stages.{is_in_flight}
use tsg.World.{World, SessionRef, commit, publish, audit}
use tsg.Pipeline.Outcome.{
  Outcome, review, cancelled, may_finish, review_row, cas_session, review_event, failed_event,
  entered_review, all_failed, report, decide, decide_session_outcome, send_to_review,
  mark_session_failed, statuses,
}
use tsg.Pipeline.Frame.{OnBoards}

module _ (P : List StageRow → Type 0) (uuid4 : ℕ → ℕ) (s : SessionRef) (w : World) where
  send_to_review-OnBoards : OnBoards P w → OnBoards P (send_to_review uuid4 s w).1
  unfolding send_to_review
  send_to_review-OnBoards g =
      pick (cas_where (may_finish s.session_id) (review_row w.now) w.db.sessions).0
    where
      w' : World
      w' = (cas_session (may_finish s.session_id) (review_row w.now) w).1

      pick :
          (won : Bool)
          → let r : Bool × World =
              (if won
                then (
                  true,
                  publish (review_event s w.now) (commit (audit uuid4 s entered_review w')),
                )
                else (false, w')) in
            OnBoards P r.1
      pick true = record { now = g.now; saved = g.now }
      pick false = record { now = g.now; saved = g.saved }

  mark_session_failed-OnBoards : OnBoards P w → OnBoards P (mark_session_failed uuid4 s w).1
  unfolding mark_session_failed
  mark_session_failed-OnBoards g =
      pick (cas_where (may_finish s.session_id) (cancelled_row w.now) w.db.sessions).0
    where
      w' : World
      w' = (cas_session (may_finish s.session_id) (cancelled_row w.now) w).1

      pick :
          (won : Bool)
          → let r : Bool × World =
              (if won
                then (true, publish (failed_event s w.now) (commit (audit uuid4 s all_failed w')))
                else (false, w')) in
            OnBoards P r.1
      pick true = record { now = g.now; saved = g.now }
      pick false = record { now = g.now; saved = g.saved }

  decide-OnBoards :
      (board : List StageStatus) → OnBoards P w → OnBoards P (decide uuid4 s board w).1
  unfolding decide
  decide-OnBoards [] g = g
  decide-OnBoards (t ∷ ts) g = pick (any is_in_flight (t ∷ ts)) _ _
    where
      pick :
          (a b c : Bool)
          → let r : Option Outcome × World =
              (if a
                then (none, w)
                else if b
                then report uuid4 review (send_to_review uuid4 s w)
                else if c
                then report uuid4 cancelled (mark_session_failed uuid4 s w)
                else (none, w)) in
            OnBoards P r.1
      pick true b c = g
      pick false true c = send_to_review-OnBoards g
      pick false false true = mark_session_failed-OnBoards g
      pick false false false = g

  pub decide_session_outcome-OnBoards :
      OnBoards P w → OnBoards P (decide_session_outcome uuid4 s w).1
  unfolding decide_session_outcome
  decide_session_outcome-OnBoards = decide-OnBoards (statuses uuid4 s.session_id w.db)
