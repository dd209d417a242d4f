-- ===== src/Dal/Stages/Cells.antt =====
-- The stage rows as cells: at most one row for each (session, subsystem, level), which is what
-- `set_up_progress_tracking` seeds and what every statement of the layer keeps.
use tsg.Base.{
  ℕ, ◌≤◌, ◌≡◌, Bool, true, false, Option, none, some, nat_eq, if◌then◌else◌, find_where,
  count_where, count_where-update_where, find_where-update_where, find_where-update_where_ne,
  count_where_keyed,
}
use tsg.Enums.{SubsystemLevel, level_eq}
use tsg.Models.{Db, StageRow}
use tsg.Dal.Stages.{is_cell, update_stages}

abbrev pub cell : ℕ → ℕ → SubsystemLevel → Db → Option StageRow
cell sid ss level db = find_where (is_cell sid ss level) db.stages

abbrev pub UniqueCells : Db → Type 0
UniqueCells db =
    (sid ss : ℕ) (level : SubsystemLevel) → count_where (is_cell sid ss level) db.stages ≤ 1

-- A column update that leaves the key columns alone.
abbrev pub KeepsKey : (StageRow → StageRow) → Type 0
KeepsKey f =
    (r : StageRow)
    → ((f r).session_id ≡ r.session_id)
      × ((f r).subsystem_id ≡ r.subsystem_id)
      × ((f r).level ≡ r.level)

pub is_cell_keeps :
    (f : StageRow → StageRow) (sid ss : ℕ) (level : SubsystemLevel)
    → KeepsKey f
    → (r : StageRow) → is_cell sid ss level (f r) ≡ is_cell sid ss level r
is_cell_keeps f sid ss level keep r = let (e, g, h) = keep r in rw (e, g, h)

pub update-UniqueCells :
    (p : StageRow → Bool) (f : StageRow → StageRow) (db : Db)
    → KeepsKey f
    → UniqueCells db
    → UniqueCells (update_stages p f db)
update-UniqueCells p f db keep u sid ss level =
    rw
      (count_where-update_where (is_cell sid ss level) p f (is_cell_keeps f sid ss level keep)
        db.stages)
      (u sid ss level)

-- What an update does to the cell that it finds.
pub cell-update :
    (p : StageRow → Bool) (f : StageRow → StageRow) (sid ss : ℕ) (level : SubsystemLevel) (db : Db)
    → KeepsKey f
    → cell sid ss level (update_stages p f db)
      ≡ elim (cell sid ss level db) [ none ↦ none | some r ↦ some (if p r then f r else r) ]
cell-update p f sid ss level db keep =
    find_where-update_where (is_cell sid ss level) p f (is_cell_keeps f sid ss level keep) db.stages

-- A statement keyed by one cell leaves every other cell as it was.
pub cell-update_ne :
    (p : StageRow → Bool) (f : StageRow → StageRow) (sid ss : ℕ) (level : SubsystemLevel) (db : Db)
    → KeepsKey f
    → ((r : StageRow) → is_cell sid ss level r ≡ true → p r ≡ false)
    → cell sid ss level (update_stages p f db) ≡ cell sid ss level db
cell-update_ne p f sid ss level db keep ne =
    find_where-update_where_ne (is_cell sid ss level) p f (is_cell_keeps f sid ss level keep) ne
      db.stages

-- The row count of a statement keyed by one cell.
pub count_cell :
    (p : StageRow → Bool) (sid ss : ℕ) (level : SubsystemLevel) (db : Db)
    → ((r : StageRow) → p r ≡ true → is_cell sid ss level r ≡ true)
    → UniqueCells db
    → count_where p db.stages
      ≡ elim (cell sid ss level db) [ none ↦ 0 | some r ↦ (if p r then 1 else 0) ]
count_cell p sid ss level db sub u =
    count_where_keyed (is_cell sid ss level) p sub db.stages (u sid ss level)
