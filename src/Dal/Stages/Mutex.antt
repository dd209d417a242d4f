-- ===== src/Dal/Stages/Mutex.antt =====
-- The locks among the rows of a board, and what taking and releasing one does to each.
use tsg.Base.{
  ℕ, ◌≤◌, ◌≡◌, refl, subst, Bool, true, false, Option, none, some, List, arith, ◌&&◌, ◌==◌, nat_eq,
  find_where, count_where, update_where, count_where-update_where, find_where-update_where_ne,
  find_where-update_where, find_where_sat, Option-cases, inl, inr,
}
use tsg.Enums.{StageStatus, SubsystemLevel, level_eq, stage_status_eq}
use tsg.Models.{Db, StageRow}
use tsg.Dal.Settings.{Settings}
use tsg.Dal.Stages.{is_cell, acquire_lock, release_lock, released, locked}
use tsg.Dal.Stages.Cells.{KeepsKey, is_cell_keeps}
use tsg.Dal.Stages.Lock.{lock_cell, acquire_lock_lem, acquire_lock-UniqueCells}

-- The status of a lock; `none` where there is no such row.
abbrev pub lock_status : ℕ → ℕ → Db → Option StageStatus
lock_status sid ss db = elim (lock_cell sid ss db) [ none ↦ none | some r ↦ some r.status ]

-- At most one row for each cell, and a property of the lock of one subsystem.
abbrev pub Board : ℕ → ℕ → (Option StageRow → Type 0) → List StageRow → Type 0
Board a b R rows =
    ((sid ss : ℕ) (level : SubsystemLevel) → count_where (is_cell sid ss level) rows ≤ 1)
    × R (find_where (is_cell a b SubsystemLevel.lock) rows)

pub has_lock : Option StageRow → Bool
has_lock none = false
has_lock (some r) = true

abbrev pub HasStatus : StageStatus → Option StageRow → Type 0
HasStatus status o = elim o [ none ↦ none | some r ↦ some r.status ] ≡ some status

-- Another lock is left alone.
pub Board-update_ne :
    (a b : ℕ) (p : StageRow → Bool) (f : StageRow → StageRow) (rows : List StageRow)
    (R : Option StageRow → Type 0)
    → KeepsKey f
    → ((r : StageRow) → is_cell a b SubsystemLevel.lock r ≡ true → p r ≡ false)
    → Board a b R rows
    → Board a b R (update_where p f rows)
Board-update_ne a b p f rows R keep ne (u, r) = (
  λ sid ss level.
      rw
        (count_where-update_where (is_cell sid ss level) p f (is_cell_keeps f sid ss level keep)
          rows)
        (u sid ss level),
  rw
      (find_where-update_where_ne (is_cell a b SubsystemLevel.lock) p f
        (is_cell_keeps f a b SubsystemLevel.lock keep) ne rows)
      r,
)

pub has_lock_of :
    (o : Option StageRow) (status : StageStatus) → HasStatus status o → has_lock o ≡ true
unfolding has_lock
has_lock_of none status h = ground (arith, h)
has_lock_of (some r) status h = refl

pub released-Board :
    (now sid ss : ℕ) (rows : List StageRow)
    → Board sid ss (λ o. has_lock o ≡ true) rows
    → Board sid ss
        (HasStatus StageStatus.idle)
        (update_where (is_cell sid ss SubsystemLevel.lock) (released now) rows)
unfolding has_lock
released-Board now sid ss rows (u, h) = (
  λ a b level.
      rw
        (count_where-update_where (is_cell a b level) (is_cell sid ss SubsystemLevel.lock)
          (released now) (λ r. refl) rows)
        (u a b level),
  elim (Option-cases (find_where (is_cell sid ss SubsystemLevel.lock) rows)) [
    | inl e ↦ ground (arith, h, e)
    | inr (r, e) ↦ ground (
      arith,
      e,
      find_where_sat (is_cell sid ss SubsystemLevel.lock) rows e,
      find_where-update_where (is_cell sid ss SubsystemLevel.lock)
          (is_cell sid ss SubsystemLevel.lock) (released now) (λ r. refl) rows,
    )
  ],
)

pub acquired-Board :
    (s : Settings) (now sid ss task : ℕ) (status : StageStatus) (db : Db)
    → Board sid ss (HasStatus status) db.stages
    → let (won, db') = acquire_lock s now sid ss task db in
      (won ≡ true → StageStatus.idle ≡ status)
      × (won ≡ false → HasStatus status (lock_cell sid ss db'))
      × Board sid ss (λ o. has_lock o ≡ true) db'.stages
unfolding has_lock
acquired-Board s now sid ss task status db (u, h) = elim (Option-cases (lock_cell sid ss db)) [
  | inl e ↦ ground (arith, e, h)
  | inr (r, e) ↦
      let (answer, row) = acquire_lock_lem s now sid ss task db r u e in
      let unique = acquire_lock-UniqueCells s now sid ss task db u in
      (
        (λ e'. ground (arith, e, e', h, answer)),
        (λ e'. ground (arith, e, e', h, answer, row)),
        (unique, rw row refl),
      )
]

-- A statement on the lock of another subsystem.
pub Board-other :
    (a b sid ss : ℕ) (p : StageRow → Bool) (f : StageRow → StageRow) (rows : List StageRow)
    (R : Option StageRow → Type 0)
    → KeepsKey f
    → (sid == a && ss == b) ≡ false
    → ((r : StageRow) → p r ≡ true → is_cell sid ss SubsystemLevel.lock r ≡ true)
    → Board a b R rows
    → Board a b R (update_where p f rows)
Board-other a b sid ss p f rows R keep ne sub =
    Board-update_ne a b p f rows R keep (λ r h. ground (arith, h, ne, sub r))

pub acquired-other :
    (s : Settings) (now a b sid ss task : ℕ) (R : Option StageRow → Type 0) (db : Db)
    → (sid == a && ss == b) ≡ false
    → Board a b R db.stages
    → Board a b R (acquire_lock s now sid ss task db).1.stages
unfolding acquire_lock
acquired-other s now a b sid ss task R db ne =
    Board-other a b sid ss _ (locked s now task) db.stages R (λ r. (refl, refl, refl)) ne
      (λ r h. ground arith)

pub released-other :
    (now a b sid ss : ℕ) (R : Option StageRow → Type 0) (db : Db)
    → (sid == a && ss == b) ≡ false
    → Board a b R db.stages
    → Board a b R (release_lock now sid ss db).stages
unfolding release_lock
released-other now a b sid ss R db ne =
    Board-other a b sid ss _ (released now) db.stages R (λ r. (refl, refl, refl)) ne (λ r h. h)

-- The same statements where the keys are known to be equal.
pub released-mine :
    (now a b sid ss : ℕ) (db : Db)
    → (sid == a && ss == b) ≡ true
    → Board a b (λ o. has_lock o ≡ true) db.stages
    → Board a b (HasStatus StageStatus.idle) (release_lock now sid ss db).stages
unfolding release_lock
released-mine now a b sid ss db e =
    let e₁ : sid ≡ a = ground (arith, e) in
    let e₂ : ss ≡ b = ground (arith, e) in
    let at : ℕ → ℕ → Type 0 = λ c d.
      Board c d (λ o. has_lock o ≡ true) db.stages
      → Board c d (HasStatus StageStatus.idle)
          (update_where (is_cell sid ss SubsystemLevel.lock) (released now) db.stages) in
    subst (λ d. at a d) e₂ (subst (λ c. at c ss) e₁ (released-Board now sid ss db.stages))

abbrev pub Taken : ℕ → ℕ → StageStatus → Bool × Db → Type 0
Taken a b status (won, db') =
    (won ≡ true → StageStatus.idle ≡ status)
    × (won ≡ false → HasStatus status (lock_cell a b db'))
    × Board a b (λ o. has_lock o ≡ true) db'.stages

pub acquired-mine :
    (s : Settings) (now a b sid ss task : ℕ) (status : StageStatus) (db : Db)
    → (sid == a && ss == b) ≡ true
    → Board a b (HasStatus status) db.stages
    → Taken a b status (acquire_lock s now sid ss task db)
acquired-mine s now a b sid ss task status db e =
    let e₁ : sid ≡ a = ground (arith, e) in
    let e₂ : ss ≡ b = ground (arith, e) in
    let at : ℕ → ℕ → Type 0 = λ c d.
      Board c d (HasStatus status) db.stages
      → Taken c d status (acquire_lock s now sid ss task db) in
    subst (λ d. at a d) e₂ (subst (λ c. at c ss) e₁ (acquired-Board s now sid ss task status db))

pub acquired-present :
    (s : Settings) (now a b sid ss task : ℕ) (db : Db)
    → (sid == a && ss == b) ≡ true
    → Board a b (λ o. has_lock o ≡ true) db.stages
    → Board a b (λ o. has_lock o ≡ true) (acquire_lock s now sid ss task db).1.stages
unfolding has_lock
acquired-present s now a b sid ss task db e (u, h) = elim (Option-cases (lock_cell a b db)) [
  | inl no_row ↦ absurd (ground (arith, no_row, h))
  | inr (r, row) ↦
      let (idle, kept, present) =
        acquired-mine s now a b sid ss task r.status db e (u, rw row refl) in
      present
]
