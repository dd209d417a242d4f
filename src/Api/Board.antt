-- ===== src/Api/Board.antt =====
-- app/api/sessions.py: what the read routes answer of a session.
use tsg.Base.{
  ℕ, String, Bool, not, ◌&&◌, Option, none, some, List, [], ◌∷◌, map, ◌==◌, nat_eq, if◌then◌else◌,
  contains, distinct, select_where, find_where,
}
use tsg.Enums.{
  SessionStatus, WorkflowStage, StageStatus, SubsystemLevel, SubsystemProgress, GroundingStatus,
  session_status_eq, stage_status_eq, level_eq,
}
use tsg.Json.{Json}
use tsg.Models.{Db, SessionRow, StageRow, Subsystem}
use tsg.Dal.Stages.{stage_rows}

unfoldable pub get_overall_status :
    StageStatus → StageStatus → StageStatus → SessionStatus → SubsystemProgress
get_overall_status profile threats scenarios session_status =
    let vals = profile ∷ threats ∷ scenarios ∷ [] in
    if contains vals StageStatus.error
    then SubsystemProgress.error
    else if profile == StageStatus.complete
        && threats == StageStatus.complete
        && scenarios == StageStatus.complete
    then SubsystemProgress.complete
    else if session_status == SessionStatus.cancelled
    then SubsystemProgress.cancelled
    else if scenarios == StageStatus.awaiting_decision
    then SubsystemProgress.awaiting_review
    else if profile == StageStatus.idle
        && threats == StageStatus.idle
        && scenarios == StageStatus.idle
    then SubsystemProgress.pending
    else SubsystemProgress.in_progress

pub record SupportingSystemBoard : Type 0 where
  pub id : ℕ
  pub name : Option String
  pub profile : StageStatus
  pub threats : StageStatus
  pub scenarios : StageStatus
  pub overall : SubsystemProgress

pub record SessionBoard : Type 0 where
  pub session_id : ℕ
  pub entity : ℕ
  pub session_status : SessionStatus
  pub current_stage : WorkflowStage
  pub stage_status : StageStatus
  pub supporting_systems : List SupportingSystemBoard

-- `stages.get(level, IDLE)`; of two rows of a cell the later one counts.
abbrev pub pivot : ℕ → SubsystemLevel → List StageRow → StageStatus → StageStatus
pivot ss level [] status = status
pivot ss level (r ∷ rows) status =
    pivot ss level rows (if r.subsystem_id == ss && r.level == level then r.status else status)

abbrev name_of : ℕ → List Subsystem → Option String
name_of ss subs = elim (find_where (λ s. s.id == ss) subs) [ none ↦ none | some s ↦ some s.name ]

unfoldable pub board_of : SessionRow → List StageRow → ℕ → SupportingSystemBoard
board_of x rows ss =
    let p = pivot ss SubsystemLevel.profile rows StageStatus.idle in
    let t = pivot ss SubsystemLevel.threats rows StageStatus.idle in
    let sc = pivot ss SubsystemLevel.scenarios rows StageStatus.idle in
    record {
      id = ss;
      name = name_of ss x.subsystems;
      profile = p;
      threats = t;
      scenarios = sc;
      overall = get_overall_status p t sc x.session_status;
    }

-- `build_board`: one line for each supporting system that has a work row, in any order.
unfoldable pub build_board : SessionRow → Db → SessionBoard
build_board x db =
    let rows = stage_rows x.session_id db in
    record {
      session_id = x.session_id;
      entity = x.entity_id;
      session_status = x.session_status;
      current_stage = x.current_stage;
      stage_status = x.stage_status;
      supporting_systems = map (board_of x rows) (distinct (map (λ r. r.subsystem_id) rows));
    }

pub record ProfileResult : Type 0 where
  pub supporting_system_id : ℕ
  pub profile : Json
  pub accepted : Bool

pub record ThreatResult : Type 0 where
  pub threat_id : ℕ
  pub supporting_system_id : ℕ
  pub threat_type : String
  pub threat_name : Option String
  pub grounding_status : GroundingStatus
  pub threat_catalogue_id : Option ℕ

pub record ScenarioResult : Type 0 where
  pub output_id : ℕ
  pub supporting_system_id : ℕ
  pub scenario : Json
  pub accepted : Bool

pub record SessionResults : Type 0 where
  pub session_id : ℕ
  pub profiles : List ProfileResult
  pub threats : List ThreatResult
  pub scenarios : List ScenarioResult

-- `get_results`: the rows that no later generation superseded.
unfoldable pub session_results : SessionRow → Db → SessionResults
session_results x db =
    let sid = x.session_id in
    record {
      session_id = sid;
      profiles =
          map
            (λ r. record {
              supporting_system_id = r.subsystem_id;
              profile = r.profile;
              accepted = r.accepted;
            })
            (select_where (λ r. r.session_id == sid && not r.superseded) db.profiles);
      threats =
          map
            (λ r. record {
              threat_id = r.threat_id;
              supporting_system_id = r.subsystem_id;
              threat_type = r.threat_type;
              threat_name = r.threat_name;
              grounding_status = r.grounding_status;
              threat_catalogue_id = r.threat_catalogue_id;
            })
            (select_where (λ r. r.session_id == sid && not r.superseded) db.threats);
      scenarios =
          map
            (λ r. record {
              output_id = r.output_id;
              supporting_system_id = r.subsystem_id;
              scenario = r.scenario;
              accepted = r.accepted;
            })
            (select_where (λ r. r.session_id == sid && not r.superseded) db.outputs);
    }
