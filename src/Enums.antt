-- ===== src/Enums.antt =====
-- app/core/enums.py: the literals that the database stores, one data type for each enumeration that
-- the modelled code reads or writes, with the equality test that a comparison with a member is.
use tsg.Base.{ℕ, ◌≡◌, ◌↔◌, HasEq, nat_beq, true, arith}

-- The liveness of a session.
pub data SessionStatus : Type 0 where
  active completed cancelled : SessionStatus

-- The step of the pipeline that a session shows.
pub data WorkflowStage : Type 0 where
  profile threat_identification scenario_generation review approved cancelled : WorkflowStage

-- The status of one (session, subsystem, level) cell, and of a session as a whole.
pub data StageStatus : Type 0 where
  idle running awaiting_decision complete error cancelled : StageStatus

-- The work cells of a subsystem; `lock` is the mutex row `_LOCK`.
pub data SubsystemLevel : Type 0 where
  profile threats scenarios lock : SubsystemLevel

pub data GroundingStatus : Type 0 where
  grounded confirm flagged : GroundingStatus

-- `Config_Threat_Rule.RuleType`; any other text in the column is `other`.
pub data ThreatRuleType : Type 0 where
  tech_gate relevance_flag relevance_context_value other : ThreatRuleType

pub data ScenarioStatus : Type 0 where
  complete error : ScenarioStatus

pub data AuditEventType : Type 0 where
  session_started auto_run_enqueued grounding_summary scoping_complete generation_complete
        entered_review review_decision profiles_accepted scenarios_accepted regeneration_completed
        threat_regrounded subsystem_advanced auto_fanout_review library_promoted
        candidate_reconciled session_cancelled stage_error :
      AuditEventType

pub data AuditDecision : Type 0 where
  accept partial reject regenerate : AuditDecision

pub data RegenGranularity : Type 0 where
  scenario threat threat_type threat_category profile : RegenGranularity

-- The derived status of one subsystem on the board.
pub data SubsystemProgress : Type 0 where
  pending in_progress awaiting_review complete error cancelled : SubsystemProgress

pub data SseEventType : Type 0 where
  stage_started stage_completed subsystem_started session_entered_review error heartbeat :
      SseEventType

abbrev pub session_status_code : SessionStatus → ℕ
session_status_code SessionStatus.active = 0
session_status_code SessionStatus.completed = 1
session_status_code SessionStatus.cancelled = 2

abbrev pub workflow_stage_code : WorkflowStage → ℕ
workflow_stage_code WorkflowStage.profile = 0
workflow_stage_code WorkflowStage.threat_identification = 1
workflow_stage_code WorkflowStage.scenario_generation = 2
workflow_stage_code WorkflowStage.review = 3
workflow_stage_code WorkflowStage.approved = 4
workflow_stage_code WorkflowStage.cancelled = 5

abbrev pub stage_status_code : StageStatus → ℕ
stage_status_code StageStatus.idle = 0
stage_status_code StageStatus.running = 1
stage_status_code StageStatus.awaiting_decision = 2
stage_status_code StageStatus.complete = 3
stage_status_code StageStatus.error = 4
stage_status_code StageStatus.cancelled = 5

abbrev pub level_code : SubsystemLevel → ℕ
level_code SubsystemLevel.profile = 0
level_code SubsystemLevel.threats = 1
level_code SubsystemLevel.scenarios = 2
level_code SubsystemLevel.lock = 3

abbrev pub grounding_code : GroundingStatus → ℕ
grounding_code GroundingStatus.grounded = 0
grounding_code GroundingStatus.confirm = 1
grounding_code GroundingStatus.flagged = 2

abbrev pub rule_type_code : ThreatRuleType → ℕ
rule_type_code ThreatRuleType.tech_gate = 0
rule_type_code ThreatRuleType.relevance_flag = 1
rule_type_code ThreatRuleType.relevance_context_value = 2
rule_type_code ThreatRuleType.other = 3

abbrev pub granularity_code : RegenGranularity → ℕ
granularity_code RegenGranularity.scenario = 0
granularity_code RegenGranularity.threat = 1
granularity_code RegenGranularity.threat_type = 2
granularity_code RegenGranularity.threat_category = 3
granularity_code RegenGranularity.profile = 4

pub session_status_iff :
    (a b : SessionStatus)
    → (nat_beq (session_status_code a) (session_status_code b) ≡ true) ↔ (a ≡ b)
session_status_iff a b = ground arith

pub workflow_stage_iff :
    (a b : WorkflowStage)
    → (nat_beq (workflow_stage_code a) (workflow_stage_code b) ≡ true) ↔ (a ≡ b)
workflow_stage_iff a b = ground arith

pub stage_status_iff :
    (a b : StageStatus) → (nat_beq (stage_status_code a) (stage_status_code b) ≡ true) ↔ (a ≡ b)
stage_status_iff a b = ground arith

pub level_iff : (a b : SubsystemLevel) → (nat_beq (level_code a) (level_code b) ≡ true) ↔ (a ≡ b)
level_iff a b = ground arith

pub grounding_iff :
    (a b : GroundingStatus) → (nat_beq (grounding_code a) (grounding_code b) ≡ true) ↔ (a ≡ b)
grounding_iff a b = ground arith

pub rule_type_iff :
    (a b : ThreatRuleType) → (nat_beq (rule_type_code a) (rule_type_code b) ≡ true) ↔ (a ≡ b)
rule_type_iff a b = ground arith

pub granularity_iff :
    (a b : RegenGranularity) → (nat_beq (granularity_code a) (granularity_code b) ≡ true) ↔ (a ≡ b)
granularity_iff a b = ground arith

instance abbrev pub session_status_eq : HasEq SessionStatus
session_status_eq = record {
  eqb = λ a b. nat_beq (session_status_code a) (session_status_code b);
  eqb_iff = session_status_iff;
}

instance abbrev pub workflow_stage_eq : HasEq WorkflowStage
workflow_stage_eq = record {
  eqb = λ a b. nat_beq (workflow_stage_code a) (workflow_stage_code b);
  eqb_iff = workflow_stage_iff;
}

instance abbrev pub stage_status_eq : HasEq StageStatus
stage_status_eq = record {
  eqb = λ a b. nat_beq (stage_status_code a) (stage_status_code b);
  eqb_iff = stage_status_iff;
}

instance abbrev pub level_eq : HasEq SubsystemLevel
level_eq = record { eqb = λ a b. nat_beq (level_code a) (level_code b); eqb_iff = level_iff }

instance abbrev pub grounding_eq : HasEq GroundingStatus
grounding_eq = record {
  eqb = λ a b. nat_beq (grounding_code a) (grounding_code b);
  eqb_iff = grounding_iff;
}

instance abbrev pub rule_type_eq : HasEq ThreatRuleType
rule_type_eq = record {
  eqb = λ a b. nat_beq (rule_type_code a) (rule_type_code b);
  eqb_iff = rule_type_iff;
}

instance abbrev pub granularity_eq : HasEq RegenGranularity
granularity_eq = record {
  eqb = λ a b. nat_beq (granularity_code a) (granularity_code b);
  eqb_iff = granularity_iff;
}
