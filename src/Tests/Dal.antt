-- ===== src/Tests/Dal.antt =====
-- The data layer's theorems on the small database.
use tsg.Base.{◌≡◌, refl, none, some, List, [], ◌∷◌, true, false, arith}
use tsg.Enums.{SubsystemLevel, StageStatus}
use tsg.Dal.Stages.{
  claim_stage, set_stage, acquire_lock, release_lock, locked, released, next_epoch,
  reset_stage_for_regen,
}
use tsg.Dal.Stages.Cells.{cell}
use tsg.Dal.Stages.Attempts.{Step, claims, settles, wins}
use tsg.Dal.Stages.Claim.{claim_stage_frame, claim_stage_excludes}
use tsg.Dal.Stages.Lock.{lock_cell, acquire_lock_excludes, release_lock_unowned}
use tsg.Dal.Stages.Epoch.{regeneration_fences}
use tsg.Tests.Data.{settings, board_db, board_cells, lock_row, scenarios_row}

claim_stage_frame_example :
    cell 1 7 SubsystemLevel.profile
      (claim_stage settings 500 1 7 SubsystemLevel.scenarios 0 9 board_db).1
    ≡ cell 1 7 SubsystemLevel.profile board_db
claim_stage_frame_example =
    claim_stage_frame settings 500 1 7 SubsystemLevel.scenarios 0 9 board_db 1 7
      SubsystemLevel.profile (λ h. absurd (ground (arith, h)))

-- A stage that fails again and again.
abbrev poison : List Step
poison =
    claims 500 0 9
    ∷ settles 501 StageStatus.error none
    ∷ claims 502 0 9
    ∷ settles 503 StageStatus.error none
    ∷ claims 504 0 9
    ∷ settles 505 StageStatus.error none
    ∷ claims 506 0 9
    ∷ []

-- The fourth claim is lost.
three_attempts : wins settings 1 7 SubsystemLevel.scenarios poison board_db ≡ 3
unfolding wins claim_stage set_stage
three_attempts = refl

claim_stage_excludes_example :
    (claim_stage settings 501 1 7 SubsystemLevel.scenarios 0 8
      (claim_stage settings 500 1 7 SubsystemLevel.scenarios 0 9 board_db).1).0
    ≡ false
claim_stage_excludes_example =
    claim_stage_excludes settings 500 501 1 7 SubsystemLevel.scenarios 0 0 9 8 board_db
      scenarios_row board_cells refl (unfold claim_stage in refl) (λ e. ground (arith, e))

acquire_lock_excludes_example :
    (acquire_lock settings 501 1 7 9 (acquire_lock settings 500 1 7 9 board_db).1).0 ≡ false
acquire_lock_excludes_example =
    acquire_lock_excludes settings 500 501 1 7 9 9 board_db lock_row board_cells refl
      (unfold acquire_lock in refl)

release_lock_unowned_example :
    let (won, db') = acquire_lock settings 600 1 7 3 (release_lock 500 1 7 board_db) in
    (won ≡ true) × (lock_cell 1 7 db' ≡ some (locked settings 600 3 (released 500 lock_row)))
release_lock_unowned_example =
    release_lock_unowned settings 500 600 1 7 3 board_db lock_row board_cells refl refl

regeneration_fences_example :
    let levels = SubsystemLevel.scenarios ∷ [] in
    let db' = reset_stage_for_regen 500 1 7 levels (next_epoch 1 7 levels board_db) board_db in
    ((claim_stage settings 600 1 7 SubsystemLevel.scenarios 0 9 db').0 ≡ false)
    × ((claim_stage settings 600 1 7 SubsystemLevel.scenarios
          (next_epoch 1 7 levels board_db)
          9
          db').0
        ≡ true)
regeneration_fences_example =
    regeneration_fences settings 500 600 1 7 (SubsystemLevel.scenarios ∷ [])
      SubsystemLevel.scenarios 0 9 board_db scenarios_row board_cells refl refl (omega arith)
      (omega arith)
