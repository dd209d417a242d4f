-- ===== src/Tests/Cascade.antt =====
-- Regenerations of one threat.
use tsg.Base.{ℕ, ◌+◌, ◌*◌, ◌≡◌, refl, none, some, [], ◌∷◌, arith, string_eq}
use tsg.Enums.{StageStatus, SubsystemLevel, RegenGranularity, level_iff}
use tsg.World.{World, rollback}
use tsg.Dal.Stages.Cells.{UniqueCells}
use tsg.Dal.Stages.Mutex.{lock_status}
use tsg.Pipeline.Cascade.{levels_by_granularity}
use tsg.Pipeline.Cascade.Regenerate.{Request, run_regeneration, redo_threats}
use tsg.Pipeline.Cascade.Locks.{run_regeneration_locks}
use tsg.Pipeline.Stages.{claim, start_stage}
use tsg.Dal.Stages.{reset_stage_for_regen}
use tsg.Tests.Data.{world_of}
use tsg.Tests.Stages.{services, plc, the_session, stocked}
use tsg.Tests.Contract.{threat_row, scoped_row, output_row}

-- A stand-in for `uuid5`.
abbrev hash : ℕ → ℕ → ℕ → ℕ → ℕ
hash sid ss threat epoch = threat * 10 + epoch

abbrev one_threat : World
one_threat = world_of (record stocked {
  threats = threat_row ∷ [];
  scoped = scoped_row ∷ [];
  outputs = output_row ∷ [];
})

one_threat_cells : UniqueCells one_threat.db
one_threat_cells sid ss level = ground (
  arith,
  level_iff SubsystemLevel.lock level,
  level_iff SubsystemLevel.profile level,
  level_iff SubsystemLevel.threats level,
  level_iff SubsystemLevel.scenarios level,
)

abbrev request : Request
request = record {
  subsystem_id = 7;
  granularity = RegenGranularity.threat;
  target_ids = some (900 ∷ []);
  epoch = 2;
  user_note = none;
}

run_regeneration_locks_example :
    let w' = (run_regeneration services hash the_session request 5 one_threat).1 in
    (lock_status 1 7 w'.db ≡ some StageStatus.idle)
    × (lock_status 1 7 w'.saved ≡ some StageStatus.idle)
run_regeneration_locks_example =
    run_regeneration_locks services hash the_session request 5 one_threat 1 7 StageStatus.idle
      one_threat_cells one_threat_cells refl refl

-- The endpoint has reserved epoch 2.
abbrev requested : World
requested = record one_threat {
  db =
      reset_stage_for_regen 500 1 7 (levels_by_granularity RegenGranularity.threat) 2 one_threat.db;
}

-- The worker dies in the scenario stage of the request.
abbrev halfway : World
halfway = (redo_threats services hash the_session plc (900 ∷ []) 2 5 requested).1

abbrev dead : World
dead = rollback (
    start_stage the_session 7 SubsystemLevel.scenarios 2
      (claim services the_session 7 SubsystemLevel.scenarios 2 5 halfway).1)

abbrev locked : World
locked = record dead { db = record dead.db { stages = [] } }
