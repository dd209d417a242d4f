-- ===== src/Pipeline/Scenarios.antt =====
-- app/pipeline/tasks.py: `write_scenarios` and `_write_one_scenario`, the third stage.
use tsg.Base.{
  ℕ, suc, String, false, Option, none, some, List, [], ◌∷◌, length, ◌==◌, if◌then◌else◌, nat_eq,
  contains, select_where,
}
use tsg.Enums.{
  WorkflowStage, StageStatus, SubsystemLevel, AuditEventType, SseEventType, ScenarioStatus,
}
use tsg.Json.{Json, fields_of}
use tsg.Models.{Db, SessionRow, Subsystem, ScopedRow, OutputRow, AuditDetail}
use tsg.Dal.Stages.{set_stage}
use tsg.Dal.Outputs.{
  Threat, supersede, supersede_by_threats, supersede_by_scoped_threats, active_scoped_threat_ids,
  scoped_generation, output_generation, scoped_per_threat,
}
use tsg.Dal.Library.{active_threat_rules}
use tsg.Failure.{returns}
use tsg.World.{World, ref_of, AuditEntry, plain_entry, on_db, guid, audit}
use tsg.Pipeline.Scoping.{Scored, score_threats}
use tsg.Pipeline.Validation.{Expected, validate_scenario, or_text}
use tsg.Pipeline.Run.{Services, Prompt, Run, pure, act, read, ◌>>=◌, ◌>>◌, ask_ai, send_live_update}
use tsg.Pipeline.Stages.{claim, start_stage}

-- The grounded types of the threats.
abbrev pub type_ids_of : List Threat → List ℕ
type_ids_of [] = []
type_ids_of (t ∷ ts) = elim t.threat_type_id [ none ↦ type_ids_of ts | some i ↦ i ∷ type_ids_of ts ]

-- `{t["threat_id"]: t for t in threats}.get(i)`: the last one wins.
abbrev pub enriched : List Threat → ℕ → Option Threat
enriched [] i = none
enriched (t ∷ ts) i =
    let later = enriched ts i in
    elim later [ some u ↦ some u | none ↦ (if t.threat_id == i then some t else none) ]

-- Library terminology wins over the model's own proposal.
abbrev pub type_to_narrate : Option Threat → Option String
type_to_narrate none = none
type_to_narrate (some t) = or_text t.library_threat_type (some t.threat_type)

abbrev pub name_to_narrate : Option Threat → Option String
name_to_narrate none = none
name_to_narrate (some t) = or_text t.library_threat_name t.threat_name

-- The rows that a run or a row-scoped regeneration rebuilds.
abbrev pub targeted : Option (List ℕ) → List Scored → List Scored
targeted none scored = scored
targeted (some ids) scored = select_where (λ sc. contains ids sc.threat_id) scored

-- The old rows make room: all of the subsystem's, or those of the targets with their scenarios.
unfoldable pub retire_scenarios : SessionRow → ℕ → Option (List ℕ) → Db → Db
retire_scenarios x ss none db = record db {
  scoped = supersede x.session_id ss db.scoped;
  outputs = supersede x.session_id ss db.outputs;
}
retire_scenarios x ss (some ids) db = record db {
  scoped = supersede_by_threats x.session_id ss ids db.scoped;
  outputs =
      supersede_by_scoped_threats x.session_id ss
        (active_scoped_threat_ids x.session_id ss ids db.scoped) db.outputs;
}

module _ (sv : Services) where
  open sv use {py, uuid4, settings}

  abbrev pub output_row :
      SessionRow → ℕ → ℕ → ℕ → Json → Option String → Option String → ℕ → World → OutputRow
  output_row x ss scoped_id epoch scenario type name id w = record {
    output_id = id;
    session_id = x.session_id;
    tenant_id = x.tenant_id;
    subsystem_id = ss;
    scoped_threat_id = scoped_id;
    status = ScenarioStatus.complete;
    scenario = scenario;
    validation = validate_scenario py (fields_of scenario) type name;
    accepted = false;
    superseded = false;
    identity_hash = (x.session_id, scoped_id);
    generation_epoch = epoch;
    created_at = w.now;
  }

  unfoldable pub save_scenario :
      SessionRow → ℕ → ℕ → ℕ → Option String → Option String → Json → World → World
  save_scenario x ss scoped_id epoch type name scenario w =
      let (id, w₁) = guid uuid4 w in
      on_db
        (λ db. record db {
          outputs = output_row x ss scoped_id epoch scenario type name id w₁ ∷ db.outputs;
        })
        w₁

  -- `_write_one_scenario`
  unfoldable pub write_one_scenario :
      SessionRow → Subsystem → ℕ → Option Threat → ℕ → Run (Unit {0})
  write_one_scenario x sub scoped_id info epoch = do
    scenario ←
        ask_ai sv x sub.id "scenario" Expected.dict
          (Prompt.scenario x.asset_name sub (type_to_narrate info) (name_to_narrate info))
    act (
        save_scenario x sub.id scoped_id epoch (type_to_narrate info) (name_to_narrate info)
          scenario)

  abbrev pub scoped_row : SessionRow → ℕ → Scored → ℕ → World → ScopedRow
  scoped_row x ss sc id w = record {
    scoped_threat_id = id;
    session_id = x.session_id;
    tenant_id = x.tenant_id;
    subsystem_id = ss;
    threat_id = sc.threat_id;
    score = sc.score;
    scope_rank = sc.rank;
    selected = sc.selected;
    reason = sc.reason;
    factors = sc.factors;
    superseded = false;
    created_at = w.now;
  }

  -- The row of a scored threat, and its id.
  unfoldable pub save_scoped : SessionRow → ℕ → Scored → Run ℕ
  save_scoped x ss sc w =
      let (id, w₁) = guid uuid4 w in
      ((returns id), on_db (λ db. record db { scoped = scoped_row x ss sc id w₁ ∷ db.scoped }) w₁)

  -- The loop over the scored threats: the number of scenarios written.
  unfoldable pub write_selected : SessionRow → Subsystem → List Threat → ℕ → List Scored → ℕ → Run ℕ
  write_selected x sub threats epoch [] count = pure count
  write_selected x sub threats epoch (sc ∷ scs) count = do
    scoped_id ← save_scoped x sub.id sc
    if sc.selected
        then write_one_scenario x sub scoped_id (enriched threats sc.threat_id) epoch
        else pure tt
    write_selected x sub threats epoch scs (if sc.selected then suc count else count)

  abbrev scoping_entry : ℕ → ℕ → ℕ → AuditEntry
  scoping_entry ss scoped selected = record (plain_entry AuditEventType.scoping_complete) {
    stage = some WorkflowStage.scenario_generation;
    subsystem_id = some ss;
    detail = AuditDetail.scoping_counts scoped selected;
  }

  -- The audit row, `set_stage`, then the event.
  unfoldable pub close_scenarios : SessionRow → ℕ → ℕ → ℕ → ℕ → World → World
  close_scenarios x ss epoch scoped selected w =
      send_live_update x.session_id SseEventType.stage_completed ss SubsystemLevel.scenarios
        StageStatus.awaiting_decision epoch
        (on_db
          (set_stage w.now x.session_id ss SubsystemLevel.scenarios StageStatus.awaiting_decision
            none)
          (audit uuid4 (ref_of x) (scoping_entry ss scoped selected) w))

  abbrev pub scored_now : Subsystem → List Threat → Db → List Scored
  scored_now sub threats db =
      score_threats py threats (some sub) (active_threat_rules (type_ids_of threats) db)
        settings.scoping_score_threshold settings.scoping_top_n

  unfoldable pub scenarios_work : SessionRow → Subsystem → List Threat → ℕ → Option (List ℕ) → Run ℕ
  scenarios_work x sub threats epoch target = do
    act (start_stage x sub.id SubsystemLevel.scenarios epoch)
    scored ← read (λ w. targeted target (scored_now sub threats w.db))
    act (on_db (retire_scenarios x sub.id target))
    count ← write_selected x sub threats epoch scored 0
    act (close_scenarios x sub.id epoch (length scored) count)
    pure count

  -- `write_scenarios`: the number of scenarios written.
  unfoldable pub write_scenarios :
      SessionRow → Subsystem → List Threat → ℕ → ℕ → Option (List ℕ) → Run ℕ
  write_scenarios x sub threats task epoch target = do
    won ← claim sv x sub.id SubsystemLevel.scenarios epoch task
    if won then scenarios_work x sub threats epoch target else pure 0
