-- ===== src/Tests/Data.antt =====
-- A small database: one active session with a subsystem whose profile awaits a decision.
use tsg.Base.{ℕ, ◌+◌, true, none, List, [], ◌∷◌, arith}
use tsg.Base.Number.{pos}
use tsg.Enums.{SessionStatus, WorkflowStage, StageStatus, SubsystemLevel, level_iff}
use tsg.Json.{Fields}
use tsg.Python.{Builtins}
use tsg.Models.{Db, SessionRow, StageRow}
use tsg.Dal.Settings.{Settings}
use tsg.Dal.Stages.Cells.{UniqueCells}
use tsg.World.{World}

abbrev pub settings : Settings
settings = record {
  tenant_id = 1;
  max_active_sessions = 2;
  stage_lease_seconds = 300;
  stage_max_attempts = 3;
  scoping_score_threshold = none;
  scoping_top_n = none;
  semantic_match_threshold = pos 50;
  grounding_confirm_threshold = pos 60;
  grounding_grounded_threshold = pos 75;
  grounding_shortlist_k = 10;
}

abbrev pub session_row : ℕ → SessionStatus → WorkflowStage → SessionRow
session_row sid status stage = record {
  session_id = sid;
  tenant_id = 1;
  entity_id = 10;
  user_id = none;
  asset_name = "boiler";
  asset_external_id = 40 + sid;
  session_status = status;
  current_stage = stage;
  stage_status = StageStatus.running;
  current_subsystem_index = 0;
  subsystems = record { id = 7; name = "plc"; fields = Fields.end } ∷ [];
  idempotency_key = none;
  sector_ids = [];
  created_at = 100;
  updated_at = 100;
  completed_at = none;
}

abbrev pub stage_row : ℕ → SubsystemLevel → StageStatus → StageRow
stage_row state level status = record {
  state_id = state;
  session_id = 1;
  tenant_id = 1;
  entity_id = 10;
  subsystem_id = 7;
  level = level;
  status = status;
  generation_epoch = 0;
  active_task_id = none;
  lease_expires_at = none;
  heartbeat_at = none;
  attempt_count = 0;
  error_message = none;
  updated_at = 100;
}

abbrev pub running_session : SessionRow
running_session = session_row 1 SessionStatus.active WorkflowStage.profile

abbrev pub lock_row : StageRow
lock_row = stage_row 60 SubsystemLevel.lock StageStatus.idle

abbrev pub profile_row : StageRow
profile_row = stage_row 61 SubsystemLevel.profile StageStatus.awaiting_decision

abbrev pub scenarios_row : StageRow
scenarios_row = stage_row 62 SubsystemLevel.scenarios StageStatus.idle

abbrev pub db_of : List SessionRow → List StageRow → Db
db_of sessions stages = record {
  sessions = sessions;
  stages = stages;
  profiles = [];
  threats = [];
  scoped = [];
  outputs = [];
  threat_types = [];
  threat_categories = [];
  threat_catalogue = [];
  threat_actors = [];
  type_actors = [];
  threat_rules = [];
  candidates = [];
  audit = [];
  prompt_log = [];
}

abbrev pub board_db : Db
board_db = db_of (running_session ∷ []) (lock_row ∷ profile_row ∷ scenarios_row ∷ [])

abbrev pub world_of : Db → World
world_of db = record { saved = db; db = db; events = []; now = 500; drawn = 0; asked = 0 }

pub board_cells : UniqueCells board_db
board_cells sid ss level = ground (
  arith,
  level_iff SubsystemLevel.lock level,
  level_iff SubsystemLevel.profile level,
  level_iff SubsystemLevel.scenarios level,
)

-- The same board after the session was cancelled.
abbrev pub dead_db : Db
dead_db =
    db_of (session_row 1 SessionStatus.cancelled WorkflowStage.cancelled ∷ [])
      (lock_row ∷ profile_row ∷ scenarios_row ∷ [])

pub dead_cells : UniqueCells dead_db
dead_cells = board_cells

-- Texts that hold no number and no JSON.
abbrev pub plain : Builtins
plain = record {
  float_of = λ t. none;
  str_of = λ j. "";
  folded = λ t. t;
  lower = λ t. t;
  sql_lower = λ t. t;
  occurs_in = λ a b. true;
  strip = λ t. t;
  loads = λ t. none;
}
