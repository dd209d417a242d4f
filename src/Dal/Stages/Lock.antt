-- ===== src/Dal/Stages/Lock.antt =====
-- `acquire_lock` and `release_lock`: the mutex row of a subsystem.
use tsg.Base.{
  ℕ, ◌≡◌, refl, sym, ◌∙◌, Bool, true, false, some, Option, if◌then◌else◌, arith, ◌&&◌, ◌==◌, any,
  find_where_sat,
}
use tsg.Enums.{StageStatus, SubsystemLevel, stage_status_eq, level_eq, level_iff}
use tsg.Models.{Db, StageRow}
use tsg.Dal.Settings.{Settings}
use tsg.Dal.Stages.{acquire_lock, release_lock, is_cell, is_active_session, locked, released}
use tsg.Dal.Stages.Cells.{
  cell, UniqueCells, KeepsKey, update-UniqueCells, cell-update, cell-update_ne, count_cell,
}

abbrev pub lock_cell : ℕ → ℕ → Db → Option StageRow
lock_cell sid ss = cell sid ss SubsystemLevel.lock

abbrev pub session_active : ℕ → Db → Bool
session_active sid db = any (is_active_session sid) db.sessions

module _ (s : Settings) (now sid ss task : ℕ) (db : Db) where
  takes : StageRow → Bool
  takes r =
      is_cell sid ss SubsystemLevel.lock r
      && r.status == StageStatus.idle
      && any (is_active_session sid) db.sessions

  -- The lock is won exactly if its row is IDLE and its session is active; the row then is RUNNING.
  pub acquire_lock_lem :
      (r : StageRow)
      → UniqueCells db
      → lock_cell sid ss db ≡ some r
      → let wins = r.status == StageStatus.idle && session_active sid db in
        let (won, db') = acquire_lock s now sid ss task db in
        (won ≡ wins) × (lock_cell sid ss db' ≡ some (if wins then locked s now task r else r))
  unfolding acquire_lock takes
  acquire_lock_lem r u e = (
    ground (arith, e, key, count_cell takes sid ss SubsystemLevel.lock db (λ x h. ground arith) u),
    ground
        (arith, e, key, cell-update takes (locked s now task) sid ss SubsystemLevel.lock db kept),
  )
    where
      key : is_cell sid ss SubsystemLevel.lock r ≡ true
      key = find_where_sat (is_cell sid ss SubsystemLevel.lock) db.stages e

      kept : KeepsKey (locked s now task)
      kept = λ x. (refl, refl, refl)

  pub acquire_lock-UniqueCells : UniqueCells db → UniqueCells (acquire_lock s now sid ss task db).1
  unfolding acquire_lock takes
  acquire_lock-UniqueCells =
      update-UniqueCells takes (locked s now task) db (λ x. (refl, refl, refl))

  -- Taking a lock leaves every work cell as it was.
  pub acquire_lock_frame :
      (sid' ss' : ℕ) (level : SubsystemLevel)
      → ¬ (level ≡ SubsystemLevel.lock)
      → cell sid' ss' level (acquire_lock s now sid ss task db).1 ≡ cell sid' ss' level db
  unfolding acquire_lock takes
  acquire_lock_frame sid' ss' level other =
      cell-update_ne takes (locked s now task) sid' ss' level db (λ x. (refl, refl, refl))
        (λ r h. ground (arith, other, level_iff level SubsystemLevel.lock))

  pub acquire_lock_sessions : (acquire_lock s now sid ss task db).1.sessions ≡ db.sessions
  unfolding acquire_lock
  acquire_lock_sessions = refl

-- While a lock is held nobody takes it, not even the task that holds it.
pub acquire_lock_excludes :
    (s : Settings) (now later sid ss a b : ℕ) (db : Db) (r : StageRow)
    → UniqueCells db
    → lock_cell sid ss db ≡ some r
    → (acquire_lock s now sid ss a db).0 ≡ true
    → (acquire_lock s later sid ss b (acquire_lock s now sid ss a db).1).0 ≡ false
acquire_lock_excludes s now later sid ss a b db r u e won =
    let (first, row) = acquire_lock_lem s now sid ss a db r u e in
    let db' = (acquire_lock s now sid ss a db).1 in
    let u' = acquire_lock-UniqueCells s now sid ss a db u in
    let wins = sym first ∙ won in
    let row' : lock_cell sid ss db' ≡ some (locked s now a r) = rw wins at row in
    let (second, _) = acquire_lock_lem s later sid ss b db' (locked s now a r) u' row' in
    second ∙ ground arith

-- No lock of a session that is not active can be taken.
acquire_lock_inactive :
    (s : Settings) (now sid ss task : ℕ) (db : Db) (r : StageRow)
    → UniqueCells db
    → lock_cell sid ss db ≡ some r
    → session_active sid db ≡ false
    → let (won, db') = acquire_lock s now sid ss task db in
      (won ≡ false) × (lock_cell sid ss db' ≡ some r)
acquire_lock_inactive s now sid ss task db r u e dead =
    let (answer, row) = acquire_lock_lem s now sid ss task db r u e in ground (arith, answer, row)

pub release_lock_lem :
    (now sid ss : ℕ) (db : Db) (r : StageRow)
    → lock_cell sid ss db ≡ some r
    → lock_cell sid ss (release_lock now sid ss db) ≡ some (released now r)
unfolding release_lock
release_lock_lem now sid ss db r e = ground (
  arith,
  e,
  find_where_sat (is_cell sid ss SubsystemLevel.lock) db.stages e,
  cell-update (is_cell sid ss SubsystemLevel.lock) (released now) sid ss SubsystemLevel.lock db
      (λ x. (refl, refl, refl)),
)

pub release_lock-UniqueCells :
    (now sid ss : ℕ) (db : Db) → UniqueCells db → UniqueCells (release_lock now sid ss db)
unfolding release_lock
release_lock-UniqueCells now sid ss db =
    update-UniqueCells (is_cell sid ss SubsystemLevel.lock) (released now) db
      (λ x. (refl, refl, refl))

pub release_lock_frame :
    (now sid ss sid' ss' : ℕ) (level : SubsystemLevel) (db : Db)
    → ¬ (level ≡ SubsystemLevel.lock)
    → cell sid' ss' level (release_lock now sid ss db) ≡ cell sid' ss' level db
unfolding release_lock
release_lock_frame now sid ss sid' ss' level db other =
    cell-update_ne (is_cell sid ss SubsystemLevel.lock) (released now) sid' ss' level db
      (λ x. (refl, refl, refl)) (λ r h. ground (arith, other, level_iff level SubsystemLevel.lock))

-- A release frees the lock whoever holds it: after it, any task takes the lock of an active session.
pub release_lock_unowned :
    (s : Settings) (now later sid ss c : ℕ) (db : Db) (r : StageRow)
    → UniqueCells db
    → lock_cell sid ss db ≡ some r
    → session_active sid db ≡ true
    → let (won, db') = acquire_lock s later sid ss c (release_lock now sid ss db) in
      (won ≡ true) × (lock_cell sid ss db' ≡ some (locked s later c (released now r)))
release_lock_unowned s now later sid ss c db r u e live =
    let db' = release_lock now sid ss db in
    let u' = release_lock-UniqueCells now sid ss db u in
    let row = release_lock_lem now sid ss db r e in
    let (answer, cell') = acquire_lock_lem s later sid ss c db' (released now r) u' row in
    unfold release_lock in ground (arith, answer, cell', live)
