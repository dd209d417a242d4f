-- ===== src/Startup/Boot.antt =====
-- When `verify_startup` of app/db/invariants.py lets the program start.
use tsg.Base.{
  ℕ, ◌≡◌, ◌↔◌, ◌⊎◌, refl, ap, ◌∙◌, String, true, false, not, Option, none, some, List, [], ◌∷◌,
  arith, ◌==◌, nat_eq, string_eq, contains, All, select_where, inl, inr, Bool-cases,
}
use tsg.Models.{Db}
use tsg.Startup.{
  StartupInvariantError, Engine, ◌then_check◌, raise_missing, check_column, check_columns,
  check_groups, duplicate_groups, required_indexes, required_not_null, profile_columns,
  output_columns, assert_indexes, assert_not_null, assert_no_duplicate_active, verify_startup,
}
use tsg.Startup.Active.{UniqueActive, duplicate_groups_lem}

-- The column is there and not nullable.
abbrev pub NotNull : (String → String) → Engine → String × String → Type 0
NotNull upper engine (table, col) =
    (nullable : String) × (engine.is_nullable table col ≡ some nullable)
    × (contains ("YES" ∷ "1" ∷ "TRUE" ∷ []) (upper nullable) ≡ false)

-- The migrations have run.
abbrev pub Migrated : (String → String) → Engine → Type 0
Migrated upper engine =
    All (λ ix. contains engine.index_names ix ≡ true) required_indexes
    × All (NotNull upper engine) required_not_null

-- One current row for each group that the program reads by.
abbrev pub ActiveOnce : Db → Type 0
ActiveOnce db =
    UniqueActive profile_columns (λ r. r.superseded) db.profiles
    × UniqueActive output_columns (λ r. r.superseded) db.outputs

both_pass :
    (a b : Option StartupInvariantError) → (a then_check b ≡ none) ↔ ((a ≡ none) × (b ≡ none))
both_pass none b = ((λ h. (refl, h)), λ h. h.1)
both_pass (some e) b = ((λ h. absurd (ground (arith, h))), λ h. h.0)

check_groups_lem :
    {P : Type 0} (table : String) (n : ℕ) → (n ≡ 0) ↔ P → (check_groups table n ≡ none) ↔ P
check_groups_lem table n h =
    ((λ e. h.0 (ground (arith, e))), λ p. let zero_groups = h.1 p in ground (arith, zero_groups))

assert_no_duplicate_active_lem :
    (engine : Engine) → (assert_no_duplicate_active engine ≡ none) ↔ ActiveOnce engine.tables
unfolding assert_no_duplicate_active
assert_no_duplicate_active_lem engine =
    let profiles =
      check_groups_lem "Subsystem_Profile"
        (duplicate_groups profile_columns (λ r. r.superseded) engine.tables.profiles)
        (duplicate_groups_lem profile_columns (λ r. r.superseded) engine.tables.profiles) in
    let outputs =
      check_groups_lem "Threat_Scenario_Output"
        (duplicate_groups output_columns (λ r. r.superseded) engine.tables.outputs)
        (duplicate_groups_lem output_columns (λ r. r.superseded) engine.tables.outputs) in
    let split =
      both_pass
        (check_groups "Subsystem_Profile"
          (duplicate_groups profile_columns (λ r. r.superseded) engine.tables.profiles))
        (check_groups "Threat_Scenario_Output"
          (duplicate_groups output_columns (λ r. r.superseded) engine.tables.outputs)) in
    (
      (λ h. (profiles.0 (split.0 h).0, outputs.0 (split.0 h).1)),
      λ u. split.1 (profiles.1 u.0, outputs.1 u.1),
    )

raise_missing_lem :
    (names xs : List String)
    → (raise_missing (select_where (λ ix. not (contains names ix)) xs) ≡ none)
      ↔ All (λ ix. contains names ix ≡ true) xs
raise_missing_lem names [] = ((λ _. tt), λ _. refl)
raise_missing_lem names (x ∷ xs) =
    let more = raise_missing_lem names xs in
    elim (Bool-cases (contains names x)) [
      | inl e ↦ (rw e (λ h. (refl, more.0 h)), λ h. rw e (more.1 h.1))
      | inr e ↦ ((λ h. absurd (ground (arith, h, e))), λ h. absurd (ground (arith, h.0, e)))
    ]

check_column_lem :
    (upper : String → String) (table col : String) (answer : Option String)
    → (check_column upper table col answer ≡ none) ↔ (
        (nullable : String) × (answer ≡ some nullable)
        × (contains ("YES" ∷ "1" ∷ "TRUE" ∷ []) (upper nullable) ≡ false))
check_column_lem upper table col none =
    ((λ h. absurd (ground (arith, h))), λ h. absurd (ground (arith, h.1)))
check_column_lem upper table col (some nullable) = (
  (λ h. (nullable, refl, ground (arith, h))),
  λ h.
      let same : nullable ≡ h.0 = ground (arith, h.1) in
      let passes : contains ("YES" ∷ "1" ∷ "TRUE" ∷ []) (upper nullable) ≡ false =
        ap (λ s. contains ("YES" ∷ "1" ∷ "TRUE" ∷ []) (upper s)) same ∙ h.2 in
      ground (arith, passes),
)

check_columns_lem :
    (upper : String → String) (engine : Engine) (cols : List (String × String))
    → (check_columns upper engine cols ≡ none) ↔ All (NotNull upper engine) cols
unfolding check_columns
check_columns_lem upper engine [] = ((λ _. tt), λ _. refl)
check_columns_lem upper engine ((table, col) ∷ rest) =
    let here = check_column_lem upper table col (engine.is_nullable table col) in
    let more = check_columns_lem upper engine rest in
    let split =
      both_pass (check_column upper table col (engine.is_nullable table col))
        (check_columns upper engine rest) in
    ((λ h. (here.0 (split.0 h).0, more.0 (split.0 h).1)), λ h. split.1 (here.1 h.0, more.1 h.1))

-- The program starts exactly where each checked group has one current row at most and, on SQL
-- Server, each required index is there and each required column is there and not nullable.
pub verify_startup_lem :
    (upper : String → String) (engine : Engine)
    → (verify_startup upper engine ≡ none) ↔ (
        ((engine.dialect_name == "mssql") ≡ false ⊎ Migrated upper engine)
        × ActiveOnce engine.tables)
unfolding verify_startup assert_indexes assert_not_null
verify_startup_lem upper engine =
    let active = assert_no_duplicate_active_lem engine in
    let indexes = raise_missing_lem engine.index_names required_indexes in
    let columns = check_columns_lem upper engine required_not_null in
    let migrated = both_pass (assert_indexes engine) (assert_not_null upper engine) in
    elim (Bool-cases (engine.dialect_name == "mssql")) [
      | inr other ↦ (rw other (λ h. (inl refl, active.0 h)), λ h. rw other (active.1 h.1))
      | inl server ↦
          let split =
            both_pass (assert_indexes engine then_check assert_not_null upper engine)
              (assert_no_duplicate_active engine) in
          (
            rw server (λ h.
                let passed = migrated.0 (split.0 h).0 in
                (inr (indexes.0 passed.0, columns.0 passed.1), active.0 (split.0 h).1)),
            λ h. elim h.0 [
              | inl other ↦ absurd (ground (arith, server, other))
              | inr (at_index, at_column) ↦
                  rw server
                    (split.1 (migrated.1 (indexes.1 at_index, columns.1 at_column), active.1 h.1))
            ],
          )
    ]
