-- ===== src/Tests/Stages.antt =====
-- The stages of the pipeline on a small board, with a language model that answers in one letter.
use mathlib.Core.List.{Perm}
use tsg.Base.{
  ℕ, ◌+◌, ◌≡◌, refl, String, true, false, Option, none, some, [], ◌∷◌, ◌==◌, arith, map,
  if◌then◌else◌, string_eq, count_where,
}
use tsg.Base.Number.{pos}
use tsg.Base.Sort.{sort_by}
use tsg.Enums.{
  SessionStatus, WorkflowStage, StageStatus, SubsystemLevel, GroundingStatus, level_iff,
}
use tsg.Json.{Json, Items, Fields}
use tsg.Models.{Db, SessionRow, StageRow, Subsystem}
use tsg.Dal.Sessions.{create_session}
use tsg.Dal.Sessions.Admission.{Admitted, Ends, create_session_lem}
use tsg.Dal.Stages.{claim_stage, acquire_lock, subsystem_has_pending_work}
use tsg.Dal.Stages.Cells.{UniqueCells}
use tsg.Dal.Outputs.{
  Threat, is_current, get_active_profile, active_threats, profile_generation, scoped_generation,
  output_generation,
}
use tsg.Dal.Contract.{latest_completed_session}
use tsg.Dal.Contract.Latest.{Latest, latest_completed_session_lem}
use tsg.Dal.Library.{active_threat_rules, active_threat_types, active_threat_categories}
use tsg.Failure.{returns, failed}
use tsg.World.{ref_of}
use tsg.Python.{Builtins}
use tsg.Pipeline.Grounding.{
  GroundingResult, find_threat_in_library, match_name, find_closest_match, get_possible_types,
  get_possible_names, label_match_from_score, pick_worse_of_two, get_allowed_actor_names,
  ensure_actor_list, find_category,
}
use tsg.Pipeline.Grounding.Laws.{RefersTo, BandOf, find_threat_in_library_lem}
use tsg.Pipeline.Scoping.{
  score_threats, cut, sort_by_rank, insert_by_rank, evaluate, apply_rules, run_rules,
}
use tsg.Pipeline.Run.{Services, Prompt, ask_ai}
use tsg.Pipeline.Validation.{parse_json}
use tsg.Pipeline.Stages.{
  write_profile, profile_work, find_threats, threats_work, retire_threats, place_proposals,
  place_proposal, out_of_scope, close_threats,
}
use tsg.Pipeline.Scenarios.{
  write_scenarios, scenarios_work, retire_scenarios, write_selected, save_scoped,
  write_one_scenario, scored_now,
}
use tsg.Pipeline.Session.{
  announce, run_stages, process_one, process_all_supporting_systems, failure_event, client_message,
}
use tsg.Dal.Stages.Mutex.{lock_status}
use tsg.Pipeline.Session.Locks.{process_all_supporting_systems_locks}
use tsg.Pipeline.Session.Failures.{entered, SameWork, process_one_failed}
use tsg.Pipeline.Reaper.{close_out}
use tsg.Pipeline.Reaper.CloseOut.{close_out_locks}
use tsg.Pipeline.Results.{write_profile_current}
use tsg.Pipeline.Results.Threats.{find_threats_saved}
use tsg.Pipeline.Results.Resumed.{stages_resumed}
use tsg.Pipeline.Results.Scenarios.{
  scored_of, scoped_rows, scoped_ids, narrated_ids, write_scenarios_rows,
}
use tsg.Tests.Data.{settings, session_row, stage_row, db_of, world_of}

abbrev pub reply : Prompt → Option String
reply (Prompt.profile _ _) = some "p"
reply (Prompt.threats _ _ _ _ _) = some "t"
reply (Prompt.scenario _ _ _ _) = some "p"

abbrev pub proposal : Json
proposal = Json.obj (Fields.field "type" (Json.str "malware") Fields.end)

abbrev pub loads : String → Option Json
loads text =
    if text == "p"
    then some (Json.obj Fields.end)
    else if text == "t"
    then some (Json.arr (Items.cons proposal Items.nil))
    else none

abbrev pub builtins : Builtins
builtins = record {
  float_of = λ t. none;
  str_of = λ j. "";
  folded = λ t. t;
  lower = λ t. t;
  sql_lower = λ t. t;
  occurs_in = λ a b. true;
  strip = λ t. t;
  loads = loads;
}

abbrev pub services : Services
services = record {
  settings = settings;
  py = builtins;
  uuid4 = λ n. 900 + n;
  chat = λ n p. reply p;
  models = record {
    similarity = λ a b. pos 80;
    rerank = λ q texts. some (map (λ t. pos 80) texts);
  };
}

abbrev pub the_session : SessionRow
the_session = session_row 1 SessionStatus.active WorkflowStage.profile

abbrev pub plc : Subsystem
plc = record { id = 7; name = "plc"; fields = Fields.end }

abbrev pub cell_row : ℕ → SubsystemLevel → StageRow
cell_row id level = record (stage_row id level StageStatus.idle) { generation_epoch = 1 }

abbrev pub seeded : Db
seeded = db_of (the_session ∷ []) (
    cell_row 60 SubsystemLevel.lock
    ∷ cell_row 61 SubsystemLevel.profile
    ∷ cell_row 62 SubsystemLevel.threats
    ∷ cell_row 63 SubsystemLevel.scenarios
    ∷ [])

-- The same with one threat type and one threat under it.
abbrev pub stocked : Db
stocked = record seeded {
  threat_types =
      record {
        threat_type_id = 5;
        threat_type_name = "malware";
        sector_id = none;
        primary_threat_category_id = none;
        is_active = true;
        is_deleted = false;
      }
      ∷ [];
  threat_catalogue =
      record {
        threat_catalogue_id = 9;
        threat_type_id = 5;
        threat_name = "worm";
        sector_id = none;
        is_active = true;
        is_deleted = false;
      }
      ∷ [];
}

abbrev proposed : Fields
proposed = Fields.field "type" (Json.str "malware") Fields.end

abbrev verdict : GroundingResult
verdict = record {
  status = GroundingStatus.grounded;
  type_id = some 5;
  catalogue_id = some 9;
  library_type = some "malware";
  library_name = some "worm";
  score = pos 80;
  actors = [];
  actors_validated = true;
}

find_threat_in_library_lem_example :
    RefersTo (find_category builtins "" stocked) [] stocked [] (some 5) verdict
    × BandOf settings (some 9) verdict
find_threat_in_library_lem_example =
    find_threat_in_library_lem builtins settings services.models stocked [] proposed verdict (
      unfold find_threat_in_library match_name find_closest_match get_possible_types
        get_possible_names label_match_from_score pick_worse_of_two get_allowed_actor_names
        ensure_actor_list find_category sort_by in
      refl)

write_profile_current_example :
    let w' = (write_profile services the_session plc 5 1 (world_of seeded)).1 in
    (get_active_profile 1 7 w'.db ≡ some (Json.obj Fields.end))
    × (count_where (is_current 1 7) w'.db.profiles ≡ 1)
write_profile_current_example =
    write_profile_current services the_session plc 5 1 (world_of seeded) (Json.obj Fields.end)
      (unfold write_profile profile_work claim_stage ask_ai parse_json in refl)

abbrev pub threat : Threat
threat = record {
  threat_id = 901;
  grounding_status = GroundingStatus.grounded;
  threat_type = "malware";
  threat_name = none;
  library_threat_type = some "malware";
  library_threat_name = some "worm";
  threat_type_id = some 5;
}

find_threats_saved_example :
    Perm
      (active_threats 1 7
        (find_threats services the_session plc Fields.end 5 1 [] [] (world_of stocked)).1.db)
      (threat ∷ [])
find_threats_saved_example =
    find_threats_saved services the_session plc Fields.end 5 1 (world_of stocked) (threat ∷ [])
      (unfold claim_stage in refl)
      (unfold find_threats threats_work claim_stage ask_ai parse_json retire_threats place_proposals
          place_proposal out_of_scope find_threat_in_library match_name find_closest_match
          get_possible_types get_possible_names label_match_from_score pick_worse_of_two
          get_allowed_actor_names ensure_actor_list find_category close_threats active_threat_types
          active_threat_categories sort_by in
        refl)

write_scenarios_rows_example :
    let w' =
      (write_scenarios services the_session plc (threat ∷ []) 5 1 none (world_of stocked)).1 in
    let scored = scored_now services plc (threat ∷ []) stocked in
    let rows = scoped_rows the_session plc w'.db.scoped in
    Perm (map scored_of rows) scored
    × Perm (narrated_ids the_session plc w'.db.outputs) (scoped_ids rows)
    × (count_where (is_current 1 7) w'.db.outputs ≡ 1)
    × (1 ≡ count_where (λ sc. sc.selected) scored)
write_scenarios_rows_example =
    write_scenarios_rows services the_session plc (threat ∷ []) 5 1 (world_of stocked) 1
      (unfold claim_stage in refl)
      (unfold write_scenarios scenarios_work claim_stage ask_ai parse_json retire_scenarios
          write_selected save_scoped write_one_scenario active_threat_rules score_threats cut
          sort_by_rank insert_by_rank evaluate apply_rules run_rules in
        refl)

-- A model whose client raises.
abbrev broken : Services
broken = record services { chat = λ n p. none }

process_one_failed_example :
    let w₁ =
      (run_stages broken the_session plc 0 5
        (entered broken the_session 7 5 (world_of seeded))).1 in
    let w' = process_one broken the_session plc 0 5 (world_of seeded) in
    (subsystem_has_pending_work 1 7 w'.db ≡ false)
    × (w'.saved ≡ w'.db)
    × SameWork w'.db w₁.saved
    × (w'.events ≡ failure_event broken 1 7 (client_message broken failed) w₁.now ∷ w₁.events)
process_one_failed_example =
    process_one_failed broken the_session plc 0 5 (world_of seeded) failed
      (unfold acquire_lock in refl)
      (unfold run_stages announce write_profile profile_work claim_stage ask_ai acquire_lock
          subsystem_has_pending_work in
        refl)

seeded_cells : UniqueCells seeded
seeded_cells sid ss level = ground (
  arith,
  level_iff SubsystemLevel.lock level,
  level_iff SubsystemLevel.profile level,
  level_iff SubsystemLevel.threats level,
  level_iff SubsystemLevel.scenarios level,
)

process_all_supporting_systems_locks_example :
    let w' = process_all_supporting_systems services 1 5 (world_of seeded) in
    (lock_status 1 7 w'.db ≡ some StageStatus.idle)
    × (lock_status 1 7 w'.saved ≡ some StageStatus.idle)
process_all_supporting_systems_locks_example =
    process_all_supporting_systems_locks services 1 5 (world_of seeded) 1 7 StageStatus.idle
      seeded_cells seeded_cells refl refl

abbrev newcomer : SessionRow
newcomer = record (session_row 2 SessionStatus.active WorkflowStage.profile) {
  idempotency_key = some "k";
}

seeded-Admitted : Admitted seeded.sessions
seeded-Admitted = record {
  one_per_id = λ id. ground arith;
  one_per_asset = λ entity asset. ground arith;
  one_per_key = λ entity key. ground arith;
}

create_session_lem_example : Ends newcomer seeded (create_session newcomer seeded)
create_session_lem_example = create_session_lem newcomer seeded refl (λ e. cc) seeded-Admitted

close_out_locks_example :
    let w' = (close_out (λ n. n) settings (ref_of the_session) (world_of seeded)).1 in
    (lock_status 1 7 w'.db ≡ some StageStatus.idle) × (w'.saved ≡ w'.db)
close_out_locks_example =
    close_out_locks (λ n. n) settings (ref_of the_session) (world_of seeded) 1 7 StageStatus.idle
      seeded_cells seeded_cells refl refl

abbrev done_row : ℕ → SubsystemLevel → StageStatus → StageRow
done_row id level status = record (stage_row id level status) { generation_epoch = 1 }

-- The board after a finished run.
abbrev finished : Db
finished = db_of (the_session ∷ []) (
    cell_row 60 SubsystemLevel.lock
    ∷ done_row 61 SubsystemLevel.profile StageStatus.complete
    ∷ done_row 62 SubsystemLevel.threats StageStatus.complete
    ∷ done_row 63 SubsystemLevel.scenarios StageStatus.awaiting_decision
    ∷ [])

finished_cells : UniqueCells finished
finished_cells = seeded_cells

stages_resumed_example :
    (write_profile services the_session plc 6 1 (world_of finished)
      ≡ (returns none, world_of finished))
    × (find_threats services the_session plc Fields.end 6 1 [] [] (world_of finished)
        ≡ (returns [], world_of finished))
    × (write_scenarios services the_session plc [] 6 1 none (world_of finished)
        ≡ (returns 0, world_of finished))
stages_resumed_example =
    stages_resumed services the_session plc Fields.end [] 6 1 none (world_of finished)
      (done_row 61 SubsystemLevel.profile StageStatus.complete)
      (done_row 62 SubsystemLevel.threats StageStatus.complete)
      (done_row 63 SubsystemLevel.scenarios StageStatus.awaiting_decision) finished_cells refl refl
      refl refl refl refl

abbrev completed_at_time : ℕ → ℕ → SessionRow
completed_at_time sid time =
    record (session_row sid SessionStatus.completed WorkflowStage.approved) {
      asset_external_id = 41;
      completed_at = some time;
    }

abbrev completed_twice : Db
completed_twice = db_of (completed_at_time 3 400 ∷ completed_at_time 4 450 ∷ the_session ∷ []) []

latest_completed_session_lem_example :
    Latest 10 41 completed_twice.sessions (latest_completed_session 10 41 completed_twice)
latest_completed_session_lem_example = latest_completed_session_lem 10 41 completed_twice
