-- ===== src/Dal/Stages/Epoch.antt =====
-- The epochs of a regeneration: a new epoch lies above every old one, and once the cells are reset to
-- it, only claims at that epoch succeed.
use tsg.Base.{
  ℕ, ◌≤◌, ◌<◌, ◌≡◌, refl, ◌∙◌, true, false, some, List, [], ◌∷◌, ◌&&◌, ◌==◌, nat_eq, arith,
  contains, select_where, find_where_sat, find_where, ltb,
}
use tsg.Enums.{SubsystemLevel, stage_status_eq, level_eq, level_iff}
use tsg.Models.{Db, StageRow}
use tsg.Dal.Settings.{Settings}
use tsg.Dal.Stages.{
  claim_stage, next_epoch, reset_stage_for_regen, is_cell, in_levels, reset_row, max_epoch,
}
use tsg.Dal.Stages.Cells.{cell, UniqueCells, update-UniqueCells, cell-update}
use tsg.Dal.Stages.Claim.{claim_stage_lem}

le-max_epoch :
    (sid ss : ℕ) (levels : List SubsystemLevel) (level : SubsystemLevel) (rows : List StageRow)
    {r : StageRow}
    → contains levels level ≡ true
    → find_where (is_cell sid ss level) rows ≡ some r
    → r.generation_epoch ≤ max_epoch (select_where (in_levels sid ss levels) rows)
le-max_epoch sid ss levels level [] h e = cc
le-max_epoch sid ss levels level (x ∷ xs) {r} h e =
    ground (arith, le-max_epoch sid ss levels level xs {r = r} h, level_iff x.level level)

-- The reserved epoch lies above the epoch of every cell that the regeneration touches.
pub lt-next_epoch :
    (sid ss : ℕ) (levels : List SubsystemLevel) (level : SubsystemLevel) (db : Db) (r : StageRow)
    → contains levels level ≡ true
    → cell sid ss level db ≡ some r
    → r.generation_epoch < next_epoch sid ss levels db
unfolding next_epoch
lt-next_epoch sid ss levels level db r h e =
    omega (arith, le-max_epoch sid ss levels level db.stages h e)

module _ (now sid ss : ℕ) (levels : List SubsystemLevel) (epoch : ℕ) (level : SubsystemLevel)
    (db : Db) (r : StageRow) (touched : contains levels level ≡ true)
    (found : cell sid ss level db ≡ some r) where
  reset_cell :
      cell sid ss level (reset_stage_for_regen now sid ss levels epoch db)
      ≡ some (reset_row now epoch r)
  unfolding reset_stage_for_regen
  reset_cell = ground (
    arith,
    find_where_sat (is_cell sid ss level) db.stages found,
    level_iff r.level level,
    cell-update (in_levels sid ss levels) (reset_row now epoch) sid ss level db
        (λ x. (refl, refl, refl)),
  )

  reset-UniqueCells :
      UniqueCells db → UniqueCells (reset_stage_for_regen now sid ss levels epoch db)
  unfolding reset_stage_for_regen
  reset-UniqueCells =
      update-UniqueCells (in_levels sid ss levels) (reset_row now epoch) db
        (λ x. (refl, refl, refl))

  reset_claim :
      (s : Settings) (later epoch' task : ℕ)
      → UniqueCells db
      → let db' = reset_stage_for_regen now sid ss levels epoch db in
        (claim_stage s later sid ss level epoch' task db').0
        ≡ (epoch == epoch' && ltb 0 s.stage_max_attempts)
  reset_claim s later epoch' task u =
      let db' = reset_stage_for_regen now sid ss levels epoch db in
      let (answer, _) =
        claim_stage_lem s later sid ss level epoch' task db' (reset_row now epoch r)
          (reset-UniqueCells u) reset_cell in
      answer ∙ ground arith

-- A regeneration fences its cells: after it has reserved its epoch and reset them, a task that comes
-- back with the cell's old epoch, or any older one, wins no claim, and the new epoch's task wins.
pub regeneration_fences :
    (s : Settings) (now later sid ss : ℕ) (levels : List SubsystemLevel) (level : SubsystemLevel)
    (old task : ℕ) (db : Db) (r : StageRow)
    → UniqueCells db
    → contains levels level ≡ true
    → cell sid ss level db ≡ some r
    → old ≤ r.generation_epoch
    → 0 < s.stage_max_attempts
    → let epoch = next_epoch sid ss levels db in
      let db' = reset_stage_for_regen now sid ss levels epoch db in
      ((claim_stage s later sid ss level old task db').0 ≡ false)
      × ((claim_stage s later sid ss level epoch task db').0 ≡ true)
regeneration_fences s now later sid ss levels level old task db r u h e stale room =
    let epoch = next_epoch sid ss levels db in
    let above = lt-next_epoch sid ss levels level db r h e in
    (
      reset_claim now sid ss levels epoch level db r h e s later old task u ∙ ground arith,
      reset_claim now sid ss levels epoch level db r h e s later epoch task u ∙ ground arith,
    )
