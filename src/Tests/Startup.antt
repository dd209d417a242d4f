-- ===== src/Tests/Startup.antt =====
-- The start-up check on a database server and on the tables of a run.
use tsg.Base.{arith, All, ◌≡◌, ◌↔◌, ◌⊎◌, refl, String, false, none, some, [], ◌∷◌, ◌==◌, string_eq}
use tsg.Json.{Json, Fields}
use tsg.Models.{Db, ProfileRow, OutputRow}
use tsg.Dal.Stages.{claim_stage}
use tsg.World.{World}
use tsg.Pipeline.Run.{ask_ai}
use tsg.Pipeline.Validation.{parse_json}
use tsg.Pipeline.Stages.{profile_work, write_profile}
use tsg.Startup.{
  duplicate_active, missing_indexes, must_be_not_null, Engine, required_indexes, duplicate_groups,
  check_columns, assert_indexes, assert_not_null, assert_no_duplicate_active, verify_startup,
}
use tsg.Enums.{ScenarioStatus}
use tsg.Dal.Library.{active_threat_rules}
use tsg.Pipeline.Scoping.{
  score_threats, cut, sort_by_rank, insert_by_rank, evaluate, apply_rules, run_rules,
}
use tsg.Pipeline.Scenarios.{
  write_scenarios, scenarios_work, retire_scenarios, write_selected, save_scoped,
  write_one_scenario,
}
use tsg.Startup.Drawn.{Drawn}
use tsg.Startup.Scenarios.{write_scenarios_boots}
use tsg.Startup.Boot.{Migrated, ActiveOnce, verify_startup_lem}
use tsg.Startup.Profile.{write_profile_boots}
use tsg.Tests.Data.{world_of}
use tsg.Tests.Stages.{stocked, threat, services, the_session, plc, seeded}

abbrev upper : String → String
upper s = s

-- A migrated server.
abbrev server : Db → Engine
server db = record {
  dialect_name = "mssql";
  index_names = required_indexes;
  is_nullable = λ table col. some "NO";
  tables = db;
}

abbrev after : World
after = (write_profile services the_session plc 5 1 (world_of seeded)).1

-- The check passes on the tables of a new session.
passes : verify_startup upper (server seeded) ≡ none
unfolding verify_startup assert_indexes assert_not_null assert_no_duplicate_active check_columns
    duplicate_groups
passes = refl

-- It stops on an index that is not there, and on a column that may be NULL.
no_index :
    verify_startup upper (record (server seeded) { index_names = "UX_Profile_Active" ∷ [] })
    ≡ some (
        missing_indexes (
          "UX_Session_ActiveAsset" ∷ "UX_Scenario_ActiveIdentity" ∷ "UX_ThreatType_NaturalKey"
          ∷ "UX_ThreatCatalogue_NaturalKey" ∷ "UX_ThreatActor_NaturalKey" ∷ []))
unfolding verify_startup assert_indexes assert_not_null assert_no_duplicate_active check_columns
    duplicate_groups
no_index = refl

nullable :
    verify_startup upper (record (server seeded) { is_nullable = λ table col. some "YES" })
    ≡ some (must_be_not_null "Scenario_Session" "EntityID")
unfolding verify_startup assert_indexes assert_not_null assert_no_duplicate_active check_columns
    duplicate_groups
nullable = refl

abbrev profile : ProfileRow
profile = record {
  profile_id = 80;
  session_id = 1;
  tenant_id = 1;
  entity_id = 10;
  subsystem_id = 7;
  profile = Json.obj Fields.end;
  validation = record { errors = []; assumptions = []; excluded_details = [] };
  accepted = false;
  superseded = false;
  created_at = 1;
}

-- Two current profiles of one supporting system stop the boot.
twice :
    verify_startup upper (server (record seeded { profiles = profile ∷ profile ∷ [] }))
    ≡ some (duplicate_active "Subsystem_Profile" 1)
unfolding verify_startup assert_indexes assert_not_null assert_no_duplicate_active check_columns
    duplicate_groups
twice = refl

verify_startup_lem_example : (verify_startup upper (server seeded) ≡ none) ↔ (
    (((server seeded).dialect_name == "mssql") ≡ false ⊎ Migrated upper (server seeded))
    × ActiveOnce seeded)
verify_startup_lem_example = verify_startup_lem upper (server seeded)

write_profile_boots_example :
    verify_startup upper (record (server seeded) { tables = after.db }) ≡ none
write_profile_boots_example =
    write_profile_boots services the_session plc 5 1 (world_of seeded) upper (server seeded)
      (some (Json.obj Fields.end)) passes
      (unfold write_profile profile_work claim_stage ask_ai parse_json in refl)

-- The scenario of an earlier run, for a scoped threat that is no longer current.
abbrev old : OutputRow
old = record {
  output_id = 901;
  session_id = 1;
  tenant_id = 1;
  subsystem_id = 7;
  scoped_threat_id = 900;
  status = ScenarioStatus.complete;
  scenario = Json.obj Fields.end;
  validation = record { errors = []; assumptions = []; excluded_details = [] };
  accepted = false;
  superseded = false;
  identity_hash = (1, 900);
  generation_epoch = 0;
  created_at = 1;
}

-- A rebuilt board after the two draws of that run.
abbrev again : World
again = record (world_of (record stocked { outputs = old ∷ [] })) { drawn = 2 }

still_passes : verify_startup upper (server again.db) ≡ none
unfolding verify_startup assert_indexes assert_not_null assert_no_duplicate_active check_columns
    duplicate_groups
still_passes = refl

write_scenarios_boots_example :
    let w' = (write_scenarios services the_session plc (threat ∷ []) 5 1 none again).1 in
    (verify_startup upper (record (server again.db) { tables = w'.db }) ≡ none)
    × All (λ r. Drawn services w'.drawn r.scoped_threat_id) w'.db.outputs
write_scenarios_boots_example =
    write_scenarios_boots services the_session plc (threat ∷ []) 5 1 none again upper
      (server again.db) 1 (λ i j e. omega (arith, e)) ((0, omega arith, refl), tt) still_passes
      (unfold write_scenarios scenarios_work claim_stage ask_ai parse_json retire_scenarios
          write_selected save_scoped write_one_scenario active_threat_rules score_threats cut
          sort_by_rank insert_by_rank evaluate apply_rules run_rules in
        refl)
