-- ===== src/Models.antt =====
-- app/db/models.py: the tables that the modelled code reads and writes, a record for a row and a
-- list for a table. Ids (GUIDs, integer keys, tenants, users) and timestamps are only compared, so
-- they are numbers; a JSON column holds the decoded value.
use tsg.Base.{ℕ, String, Bool, List, Option}
use tsg.Base.Number.{ℤ}
use tsg.Enums.{
  SessionStatus, WorkflowStage, StageStatus, SubsystemLevel, GroundingStatus, ThreatRuleType,
  ScenarioStatus, AuditEventType, AuditDecision, RegenGranularity,
}
use tsg.Json.{Json, Fields}

-- One supporting system of `SubsystemsJSON`: its id and name, and the whole dict.
pub record Subsystem : Type 0 where
  pub id : ℕ
  pub name : String
  pub fields : Fields

pub record SessionRow : Type 0 where
  pub session_id : ℕ
  pub tenant_id : ℕ
  pub entity_id : ℕ
  pub user_id : Option ℕ
  pub asset_name : String
  pub asset_external_id : ℕ
  pub session_status : SessionStatus
  pub current_stage : WorkflowStage
  pub stage_status : StageStatus
  pub current_subsystem_index : ℕ
  pub subsystems : List Subsystem
  pub idempotency_key : Option String
  pub sector_ids : List ℕ
  pub created_at : ℕ
  pub updated_at : ℕ
  pub completed_at : Option ℕ

pub record StageRow : Type 0 where
  pub state_id : ℕ
  pub session_id : ℕ
  pub tenant_id : ℕ
  pub entity_id : ℕ
  pub subsystem_id : ℕ
  pub level : SubsystemLevel
  pub status : StageStatus
  pub generation_epoch : ℕ
  pub active_task_id : Option ℕ
  pub lease_expires_at : Option ℕ
  pub heartbeat_at : Option ℕ
  pub attempt_count : ℕ
  pub error_message : Option String
  pub updated_at : ℕ

-- A note of `ValidationJSON`: a field that is missing or blank, or a text that does not mention what
-- it is about.
pub data Flaw : Type 0 where
  missing : String → Flaw
  unreferenced : Flaw

-- `ValidationJSON`. Its status is `ok` exactly if there are no errors.
pub record Validation : Type 0 where
  pub errors : List Flaw
  pub assumptions : List String
  pub excluded_details : List String

pub record ProfileRow : Type 0 where
  pub profile_id : ℕ
  pub session_id : ℕ
  pub tenant_id : ℕ
  pub entity_id : ℕ
  pub subsystem_id : ℕ
  pub profile : Json
  pub validation : Validation
  pub accepted : Bool
  pub superseded : Bool
  pub created_at : ℕ

pub record ThreatRow : Type 0 where
  pub threat_id : ℕ
  pub session_id : ℕ
  pub tenant_id : ℕ
  pub subsystem_id : ℕ
  pub threat_category : String
  pub threat_type : String
  pub threat_name : Option String
  pub actors : List String
  pub actors_validated : Bool
  pub library_threat_type : Option String
  pub library_threat_name : Option String
  pub threat_type_id : Option ℕ
  pub threat_catalogue_id : Option ℕ
  pub grounding_status : GroundingStatus
  pub grounding_score : Option ℤ
  pub superseded : Bool
  pub created_at : ℕ

-- One fired rule of `FactorsJSON`: {key, family, delta[, gate]}.
pub record Factor : Type 0 where
  pub key : String
  pub family : ThreatRuleType
  pub delta : ℤ
  pub gate : Option Bool

-- The texts that `Scoped_Threat.Reason` can hold.
pub data Reason : Type 0 where
  gates_failed : List String → Reason
  grounding : GroundingStatus → Reason
  below_threshold : ℤ → Reason
  beyond_top : ℕ → Reason

pub record ScopedRow : Type 0 where
  pub scoped_threat_id : ℕ
  pub session_id : ℕ
  pub tenant_id : ℕ
  pub subsystem_id : ℕ
  pub threat_id : ℕ
  pub score : ℤ
  pub scope_rank : ℕ
  pub selected : Bool
  pub reason : Reason
  pub factors : List Factor
  pub superseded : Bool
  pub created_at : ℕ

-- `IdentityHash` is the pair that the source hashes: the session and the scoped threat.
pub record OutputRow : Type 0 where
  pub output_id : ℕ
  pub session_id : ℕ
  pub tenant_id : ℕ
  pub subsystem_id : ℕ
  pub scoped_threat_id : ℕ
  pub status : ScenarioStatus
  pub scenario : Json
  pub validation : Validation
  pub accepted : Bool
  pub superseded : Bool
  pub identity_hash : ℕ × ℕ
  pub generation_epoch : ℕ
  pub created_at : ℕ

pub record ThreatTypeRow : Type 0 where
  pub threat_type_id : ℕ
  pub threat_type_name : String
  pub sector_id : Option ℕ
  pub primary_threat_category_id : Option ℕ
  pub is_active : Bool
  pub is_deleted : Bool

pub record ThreatCategoryRow : Type 0 where
  pub threat_category_id : ℕ
  pub threat_category_name : String
  pub threat_category_code : Option String
  pub is_active : Bool
  pub is_deleted : Bool

pub record ThreatCatalogueRow : Type 0 where
  pub threat_catalogue_id : ℕ
  pub threat_type_id : ℕ
  pub threat_name : String
  pub sector_id : Option ℕ
  pub is_active : Bool
  pub is_deleted : Bool

pub record ThreatActorRow : Type 0 where
  pub threat_actor_id : ℕ
  pub threat_actor_name : String
  pub is_active : Bool
  pub is_deleted : Bool

-- `ThreatType_ThreatActor_Map`
pub record TypeActorRow : Type 0 where
  pub threat_type_id : ℕ
  pub threat_actor_id : ℕ

-- `Metadata` is `none` where the column is NULL or empty, `some none` where it is not JSON.
pub record ThreatRuleRow : Type 0 where
  pub threat_rule_id : ℕ
  pub rule_type : ThreatRuleType
  pub threat_type_id : ℕ
  pub rule_key : String
  pub rule_value : Option String
  pub metadata : Option (Option Json)
  pub is_active : Bool
  pub is_deleted : Bool

-- One row for each promoted threat; `Status` is always `accepted`.
pub record CandidateRow : Type 0 where
  pub candidate_id : ℕ
  pub tenant_id : ℕ
  pub entity_id : ℕ
  pub session_id : ℕ
  pub proposed_category : String
  pub proposed_type : String
  pub proposed_name : String
  pub threat_type_id : ℕ
  pub threat_catalogue_id : Option ℕ
  pub reviewed_by : Option ℕ
  pub reviewed_at : ℕ
  pub created_at : ℕ

-- The shapes of `Scenario_Audit.DetailJSON`; `promoted` starts with the column `ThreatTypeRefID`.
pub data AuditDetail : Type 0 where
  nothing : AuditDetail
  threat_counts : ℕ → ℕ → AuditDetail
  scoping_counts : ℕ → ℕ → AuditDetail
  generated : ℕ → ℕ → AuditDetail
  failure : String → ℕ → AuditDetail
  reason : String → AuditDetail
  subsystem_at : ℕ → ℕ → AuditDetail
  regrounded : ℕ → ℕ → AuditDetail
  regenerated :
      Option (List ℕ)
      → Option (List String)
      → Option (List ℕ)
      → Option ℕ
      → ℕ
      → Option String
      → AuditDetail
  subset : List ℕ → AuditDetail
  promoted : ℕ → ℕ → Option ℕ → Option ℕ → List String → AuditDetail
  reconciled : ℕ → ℕ → AuditDetail

pub record AuditRow : Type 0 where
  pub audit_id : ℕ
  pub session_id : ℕ
  pub tenant_id : ℕ
  pub entity_id : ℕ
  pub stage : Option WorkflowStage
  pub subsystem_id : Option ℕ
  pub event_type : AuditEventType
  pub decision : Option AuditDecision
  pub granularity : Option RegenGranularity
  pub actor_user_id : Option ℕ
  pub detail : AuditDetail
  pub created_at : ℕ

-- One row for each call of the language model.
pub record PromptLogRow : Type 0 where
  pub log_id : ℕ
  pub session_id : ℕ
  pub subsystem_id : ℕ
  pub stage : String
  pub response_text : String
  pub parse_succeeded : Bool
  pub created_at : ℕ

-- The database.
pub record Db : Type 0 where
  pub sessions : List SessionRow
  pub stages : List StageRow
  pub profiles : List ProfileRow
  pub threats : List ThreatRow
  pub scoped : List ScopedRow
  pub outputs : List OutputRow
  pub threat_types : List ThreatTypeRow
  pub threat_categories : List ThreatCategoryRow
  pub threat_catalogue : List ThreatCatalogueRow
  pub threat_actors : List ThreatActorRow
  pub type_actors : List TypeActorRow
  pub threat_rules : List ThreatRuleRow
  pub candidates : List CandidateRow
  pub audit : List AuditRow
  pub prompt_log : List PromptLogRow
