-- ===== src/Dal/Stages/Claim.antt =====
-- `claim_stage`: when a claim wins, what it writes, and that a cell has one winner.
use tsg.Base.{
  ℕ, ◌≡◌, ◌≢◌, refl, Bool, true, false, some, nat_eq, if◌then◌else◌, arith, ◌&&◌, find_where_sat,
  sym, ◌∙◌,
}
use tsg.Enums.{SubsystemLevel, stage_status_eq, level_eq, level_iff}
use tsg.Models.{Db, StageRow}
use tsg.Dal.Settings.{Settings}
use tsg.Dal.Stages.{claim_stage, is_cell, is_claimable, claimed}
use tsg.Dal.Stages.Cells.{
  cell, UniqueCells, KeepsKey, update-UniqueCells, cell-update, cell-update_ne, count_cell,
}

module _ (s : Settings) (now sid ss : ℕ) (level : SubsystemLevel) (epoch task : ℕ) where
  -- The statement hits the keyed row or none.
  hits : StageRow → Bool
  hits r = is_cell sid ss level r && is_claimable s epoch task r

  -- A claim of an existing cell wins exactly if the cell is claimable, and then writes the claimed row.
  pub claim_stage_lem :
      (db : Db) (r : StageRow)
      → UniqueCells db
      → cell sid ss level db ≡ some r
      → let (won, db') = claim_stage s now sid ss level epoch task db in
        (won ≡ is_claimable s epoch task r)
        × (cell sid ss level db'
            ≡ some (if is_claimable s epoch task r then claimed s now task r else r))
  unfolding claim_stage hits
  claim_stage_lem db r u e = (
    ground (arith, e, key, count_cell hits sid ss level db (λ x h. ground arith) u),
    ground (arith, e, key, cell-update hits (claimed s now task) sid ss level db kept),
  )
    where
      key : is_cell sid ss level r ≡ true
      key = find_where_sat (is_cell sid ss level) db.stages e

      kept : KeepsKey (claimed s now task)
      kept = λ x. (refl, refl, refl)

  -- It leaves every other cell as it was, and the cells unique.
  pub claim_stage_frame :
      (db : Db) (sid' ss' : ℕ) (level' : SubsystemLevel)
      → ¬ ((sid' ≡ sid) × (ss' ≡ ss) × (level' ≡ level))
      → cell sid' ss' level' (claim_stage s now sid ss level epoch task db).1
        ≡ cell sid' ss' level' db
  unfolding claim_stage hits
  claim_stage_frame db sid' ss' level' other =
      cell-update_ne hits (claimed s now task) sid' ss' level' db (λ x. (refl, refl, refl))
        (λ r h. ground (arith, other, level_iff level level'))

  pub claim_stage-UniqueCells :
      (db : Db) → UniqueCells db → UniqueCells (claim_stage s now sid ss level epoch task db).1
  unfolding claim_stage hits
  claim_stage-UniqueCells db =
      update-UniqueCells hits (claimed s now task) db (λ x. (refl, refl, refl))

-- A cell that one task has claimed is not claimed by another, whatever its epoch and clock.
pub claim_stage_excludes :
    (s : Settings) (now later sid ss : ℕ) (level : SubsystemLevel) (epoch epoch' a b : ℕ) (db : Db)
    (r : StageRow)
    → UniqueCells db
    → cell sid ss level db ≡ some r
    → (claim_stage s now sid ss level epoch a db).0 ≡ true
    → a ≢ b
    → let db' = (claim_stage s now sid ss level epoch a db).1 in
      (claim_stage s later sid ss level epoch' b db').0 ≡ false
claim_stage_excludes s now later sid ss level epoch epoch' a b db r u e won ne =
    let (first, row) = claim_stage_lem s now sid ss level epoch a db r u e in
    let db' = (claim_stage s now sid ss level epoch a db).1 in
    let u' = claim_stage-UniqueCells s now sid ss level epoch a db u in
    let free : is_claimable s epoch a r ≡ true = sym first ∙ won in
    let row' : cell sid ss level db' ≡ some (claimed s now a r) = rw free at row in
    let (second, _) =
      claim_stage_lem s later sid ss level epoch' b db' (claimed s now a r) u' row' in
    second ∙ ground arith
