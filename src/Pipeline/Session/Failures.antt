-- ===== src/Pipeline/Session/Failures.antt =====
-- A supporting system of app/pipeline/tasks.py whose stages raise: what is left of it.
use tsg.Base.{
  ℕ, ◌≡◌, refl, subst, ◌∙◌, String, Bool, true, false, ◌&&◌, some, ◌∷◌, arith, ◌==◌, if◌then◌else◌,
  nat_eq, any-update_where_none, any-update_where,
}
use tsg.Enums.{StageStatus, SubsystemLevel, level_eq, stage_status_eq}
use tsg.Models.{Db, StageRow, SessionRow, Subsystem}
use tsg.Dal.Stages.{
  is_cell, acquire_lock, release_lock, released, in_levels, is_in_flight, with_status, is_work_row,
  subsystem_has_pending_work,
}
use tsg.Failure.{Failure, Attempt, returns, raises}
use tsg.World.{World}
use tsg.Pipeline.Run.{Services}
use tsg.Pipeline.Stages.{work_levels}
use tsg.Pipeline.Session.{
  client_message, failure_event, flag_unfinished, record_failure, recover, let_go, run_stages,
  process_one,
}

abbrev is_pending : ℕ → ℕ → StageRow → Bool
is_pending sid ss r = is_work_row sid r && r.subsystem_id == ss && is_in_flight r.status

flag_unfinished_pending :
    (sv : Services) (now sid ss : ℕ) (message : String) (db : Db)
    → subsystem_has_pending_work sid ss (flag_unfinished sv now sid ss message db) ≡ false
unfolding subsystem_has_pending_work flag_unfinished
flag_unfinished_pending sv now sid ss message db =
    any-update_where_none (is_pending sid ss)
      (λ r. in_levels sid ss work_levels r && is_in_flight r.status)
      (with_status now StageStatus.error (some message)) (λ r. ground arith) db.stages

release_lock_pending :
    (now sid ss : ℕ) (db : Db)
    → subsystem_has_pending_work sid ss (release_lock now sid ss db)
      ≡ subsystem_has_pending_work sid ss db
unfolding subsystem_has_pending_work release_lock
release_lock_pending now sid ss db =
    any-update_where (is_pending sid ss) (is_cell sid ss SubsystemLevel.lock) (released now)
      (λ r. ground arith) db.stages

-- The rows that a stage writes for its supporting system.
abbrev pub SameWork : Db → Db → Type 0
SameWork db db' =
    (db.profiles ≡ db'.profiles)
    × (db.threats ≡ db'.threats)
    × (db.scoped ≡ db'.scoped)
    × (db.outputs ≡ db'.outputs)

-- How a round ends whose stages raised `e` in the world `w₁`.
abbrev Settled : Services → SessionRow → ℕ → Failure → World → World → Type 0
Settled sv x ss e w₁ w' =
    (subsystem_has_pending_work x.session_id ss w'.db ≡ false)
    × (w'.saved ≡ w'.db)
    × SameWork w'.db w₁.saved
    × (w'.events ≡ failure_event sv x.session_id ss (client_message sv e) w₁.now ∷ w₁.events)

settled :
    (sv : Services) (x : SessionRow) (ss : ℕ) (e : Failure) (w : World)
    → Settled sv x ss e w (let_go sv x.session_id ss (recover sv x ss (raises e, w)))
unfolding let_go recover record_failure flag_unfinished release_lock subsystem_has_pending_work
settled sv x ss e w = (
  release_lock_pending w.now x.session_id ss
        (flag_unfinished sv w.now x.session_id ss (client_message sv e) w.saved)
      ∙ flag_unfinished_pending sv w.now x.session_id ss (client_message sv e) w.saved,
  refl,
  (refl, refl, refl, refl),
  refl,
)

-- The world in which the stages of a round start.
abbrev pub entered : Services → SessionRow → ℕ → ℕ → World → World
entered sv x ss task w = record w {
  db = (acquire_lock sv.settings w.now x.session_id ss task w.db).1;
}

-- A round that took the lock and whose stages raise ends committed, with no work cell of the
-- supporting system idle or running, with the results of the stages as the last commit left them,
-- and with one more event, which carries the message for the client.
pub process_one_failed :
    (sv : Services) (x : SessionRow) (sub : Subsystem) (idx task : ℕ) (w : World) (e : Failure)
    → (acquire_lock sv.settings w.now x.session_id sub.id task w.db).0 ≡ true
    → (run_stages sv x sub idx task (entered sv x sub.id task w)).0 ≡ raises e
    → let w₁ = (run_stages sv x sub idx task (entered sv x sub.id task w)).1 in
      let w' = process_one sv x sub idx task w in
      (subsystem_has_pending_work x.session_id sub.id w'.db ≡ false)
      × (w'.saved ≡ w'.db)
      × SameWork w'.db w₁.saved
      × (w'.events ≡ failure_event sv x.session_id sub.id (client_message sv e) w₁.now ∷ w₁.events)
unfolding process_one let_go
process_one_failed sv x sub idx task w e won raised =
    go (acquire_lock sv.settings w.now x.session_id sub.id task w.db).0 won
      (run_stages sv x sub idx task (entered sv x sub.id task w)) raised
  where
    go :
        (b : Bool)
        → b ≡ true
        → (r : Attempt (Unit {0}) × World) → r.0 ≡ raises e
        → let w' =
            if b
            then let_go sv x.session_id sub.id (recover sv x sub.id r)
            else entered sv x sub.id task w in
          Settled sv x sub.id e r.1 w'
    go true h (raises e', w₂) raised =
        let same : e' ≡ e = cc in
        subst
          (λ f.
            Settled sv x sub.id f w₂
              (let_go sv x.session_id sub.id (recover sv x sub.id (raises e', w₂))))
          same (settled sv x sub.id e' w₂)
    go true h (returns _, w₂) raised = ground (arith, raised)
    go false h r raised = ground (arith, h)
