-- ===== src/Startup.antt =====
-- app/db/invariants.py: what the database must look like before the API or a worker serves.
pub mod Active
pub mod Boot
pub mod Profile
pub mod Drawn
pub mod Scenarios
use tsg.Base.{
  ℕ, String, Bool, true, false, not, ◌&&◌, ◌||◌, Option, none, some, List, [], ◌∷◌, map, ◌==◌,
  nat_eq, string_eq, pair_eq, if◌then◌else◌, contains, select_where, count_where, distinct, ltb,
}
use tsg.Models.{Db, ProfileRow, OutputRow}

pub data StartupInvariantError : Type 0 where
  missing_indexes : List String → StartupInvariantError
  missing_column : String → String → StartupInvariantError
  must_be_not_null : String → String → StartupInvariantError
  duplicate_active : String → ℕ → StartupInvariantError

-- The engine: the name of its dialect, the names in `sys.indexes`, what `INFORMATION_SCHEMA` says
-- of a column, and the tables.
pub record Engine : Type 0 where
  pub dialect_name : String
  pub index_names : List String
  pub is_nullable : String → String → Option String
  pub tables : Db

-- `REQUIRED_INDEXES`
abbrev pub required_indexes : List String
required_indexes =
    "UX_Session_ActiveAsset" ∷ "UX_Profile_Active" ∷ "UX_Scenario_ActiveIdentity"
    ∷ "UX_ThreatType_NaturalKey" ∷ "UX_ThreatCatalogue_NaturalKey" ∷ "UX_ThreatActor_NaturalKey"
    ∷ []

-- `REQUIRED_NOT_NULL`
abbrev pub required_not_null : List (String × String)
required_not_null =
    ("Scenario_Session", "EntityID")
    ∷ ("Scenario_Session", "AssetExternalID")
    ∷ ("Threat_Candidate_Review", "TenantID")
    ∷ []

-- The next check, where no check before it has raised.
infixr 6 ◌then_check◌
abbrev pub ◌then_check◌ :
    Option StartupInvariantError → Option StartupInvariantError → Option StartupInvariantError
some e then_check next = some e
none then_check next = next

abbrev pub raise_missing : List String → Option StartupInvariantError
raise_missing [] = none
raise_missing (x ∷ xs) = some (missing_indexes (x ∷ xs))

unfoldable pub assert_indexes : Engine → Option StartupInvariantError
assert_indexes engine =
    raise_missing (select_where (λ ix. not (contains engine.index_names ix)) required_indexes)

-- `upper` is Python's `str.upper`.
abbrev pub check_column :
    (String → String) → String → String → Option String → Option StartupInvariantError
check_column upper table col none = some (missing_column table col)
check_column upper table col (some nullable) =
    if contains ("YES" ∷ "1" ∷ "TRUE" ∷ []) (upper nullable)
    then some (must_be_not_null table col)
    else none

unfoldable pub check_columns :
    (String → String) → Engine → List (String × String) → Option StartupInvariantError
check_columns upper engine [] = none
check_columns upper engine ((table, col) ∷ rest) =
    check_column upper table col (engine.is_nullable table col)
    then_check check_columns upper engine rest

unfoldable pub assert_not_null : (String → String) → Engine → Option StartupInvariantError
assert_not_null upper engine = check_columns upper engine required_not_null

-- `SELECT COUNT(*) FROM (SELECT cols FROM table WHERE Superseded = 0 GROUP BY cols HAVING
-- COUNT(*) > 1)`
unfoldable pub duplicate_groups {ℓ} : {A : Type ℓ} → (A → ℕ × ℕ) → (A → Bool) → List A → ℕ
duplicate_groups cols superseded rows =
    let keys = map cols (select_where (λ r. not (superseded r)) rows) in
    count_where (λ k. ltb 1 (count_where (λ k'. k' == k) keys)) (distinct keys)

abbrev pub check_groups : String → ℕ → Option StartupInvariantError
check_groups table dupes = if dupes == 0 then none else some (duplicate_active table dupes)

-- The grouping columns of `ACTIVE_UNIQUE`.
abbrev pub profile_columns : ProfileRow → ℕ × ℕ
profile_columns r = (r.session_id, r.subsystem_id)

abbrev pub output_columns : OutputRow → ℕ × ℕ
output_columns r = (r.session_id, r.scoped_threat_id)

unfoldable pub assert_no_duplicate_active : Engine → Option StartupInvariantError
assert_no_duplicate_active engine =
    check_groups "Subsystem_Profile"
      (duplicate_groups profile_columns (λ r. r.superseded) engine.tables.profiles)
    then_check check_groups "Threat_Scenario_Output"
        (duplicate_groups output_columns (λ r. r.superseded) engine.tables.outputs)

-- `verify_startup`: the error that stops the boot, if any.
unfoldable pub verify_startup : (String → String) → Engine → Option StartupInvariantError
verify_startup upper engine =
    (if engine.dialect_name == "mssql"
      then assert_indexes engine then_check assert_not_null upper engine
      else none)
    then_check assert_no_duplicate_active engine
