-- ===== src/Pipeline/Reaper/CloseOut.antt =====
-- `_close_out_one_abandoned_session` of app/pipeline/reaper.py and the locks.
use tsg.Base.{
  ℕ, ◌≡◌, refl, Bool, true, false, ◌&&◌, Option, none, some, List, [], arith, if◌then◌else◌, nat_eq,
  inl, inr,
}
use tsg.Enums.{StageStatus, SubsystemLevel, level_eq, level_iff}
use tsg.Models.{StageRow}
use tsg.Dal.Settings.{Settings}
use tsg.Dal.Stages.{is_work_row, is_in_flight, with_status, subsystem_ids_at_level}
use tsg.Dal.Stages.Cells.{UniqueCells}
use tsg.Dal.Stages.Mutex.{lock_status, Board, HasStatus, Board-update_ne}
use tsg.World.{World, SessionRef, commit}
use tsg.Pipeline.Outcome.Board.{decide_session_outcome-OnBoards}
use tsg.Pipeline.Frame.{OnBoards}
use tsg.Pipeline.Locks.{take_locks, release_all}
use tsg.Pipeline.Locks.Held.{Present, Held, mine, take_locks-Held, let_all_go}
use tsg.Pipeline.Reaper.{flag_leftovers, finish, close_out}

module _ (a b sid : ℕ) (uuid4 : ℕ → ℕ) (s : Settings) (status : StageStatus) where
  finish-OnBoards :
      (R : Option StageRow → Type 0) (x : SessionRef) (w : World)
      → OnBoards (Board a b R) w
      → OnBoards (Board a b R) (finish uuid4 s x w).1
  unfolding finish flag_leftovers
  finish-OnBoards R x w g = decide_session_outcome-OnBoards (Board a b R) uuid4 x _ (record {
    now =
        Board-update_ne a b (λ r. is_work_row x.session_id r && is_in_flight r.status)
          (with_status w.now StageStatus.error (some "reaped: worker gone")) w.db.stages R
          (λ r. (refl, refl, refl))
          (λ r h. ground (arith, h, level_iff r.level SubsystemLevel.lock)) g.now;
    saved = g.saved;
  })

  finish-Held :
      (x : SessionRef) (acquired : List ℕ) (w : World)
      → Held a b sid status acquired w
      → Held a b sid status acquired (finish uuid4 s x w).1
  unfolding Held
  finish-Held x acquired w (inl (m, i, g)) = inl (m, i, finish-OnBoards Present x w g)
  finish-Held x acquired w (inr (m, g)) = inr (m, finish-OnBoards (HasStatus status) x w g)

-- Closing out a session leaves every lock in the status in which it found it, and committed: the
-- locks that it took are given back, also where it stops at a lock that somebody holds, and no other
-- lock is touched. The board has at most one row for each cell.
pub close_out_locks :
    (uuid4 : ℕ → ℕ) (s : Settings) (x : SessionRef) (w : World) (a b : ℕ) (status : StageStatus)
    → UniqueCells w.db
    → UniqueCells w.saved
    → lock_status a b w.db ≡ some status
    → lock_status a b w.saved ≡ some status
    → let w' = (close_out uuid4 s x w).1 in
      (lock_status a b w'.db ≡ some status) × (w'.saved ≡ w'.db)
unfolding close_out Held mine
close_out_locks uuid4 s x w a b status u u' e e' =
    go
      (take_locks s x.session_id (subsystem_ids_at_level x.session_id SubsystemLevel.lock none w.db)
        [] w)
      (take_locks-Held a b x.session_id s status _ [] w start)
  where
    start : Held a b x.session_id status [] w
    start = inr (ground arith, record { now = (u, e); saved = (u', e') })

    go :
        (r : Bool × List ℕ × World)
        → (let (all_ours, taken, w') = r in Held a b x.session_id status taken w')
        → let (all_ours, taken, w₁) = r in
          let (outcome, w₂) = if all_ours then finish uuid4 s x w₁ else (none, w₁) in
          let w' = commit (release_all x.session_id taken w₂) in
          (lock_status a b w'.db ≡ some status) × (w'.saved ≡ w'.db)
    go (true, taken, w₁) h = (
      (let_all_go a b x.session_id s status taken _
          (finish-Held a b x.session_id uuid4 s status x taken w₁ h)).1,
      refl,
    )
    go (false, taken, w₁) h = ((let_all_go a b x.session_id s status taken w₁ h).1, refl)
