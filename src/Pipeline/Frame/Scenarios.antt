-- ===== src/Pipeline/Frame/Scenarios.antt =====
-- `write_scenarios` of app/pipeline/tasks.py and the stage board.
use tsg.Base.{ℕ, suc, String, Option, none, some, List, [], ◌∷◌, length, if◌then◌else◌}
use tsg.Enums.{StageStatus, SubsystemLevel}
use tsg.Json.{Json}
use tsg.Models.{StageRow, SessionRow, Subsystem}
use tsg.Dal.Stages.{set_stage}
use tsg.Dal.Outputs.{Threat}
use tsg.World.{on_db}
use tsg.Pipeline.Scoping.{Scored}
use tsg.Pipeline.Validation.{Expected}
use tsg.Pipeline.Run.{Services, Prompt, Run, act}
use tsg.Pipeline.Keeps.{Keeps, ◌then_keeps◌, Keeps-if, Keeps-pure, Keeps-read}
use tsg.Pipeline.Scenarios.{
  retire_scenarios, save_scenario, write_one_scenario, save_scoped, write_selected, close_scenarios,
  scenarios_work, write_scenarios, type_to_narrate, name_to_narrate, enriched, targeted, scored_now,
}
use tsg.Pipeline.Frame.{
  WorkStable, OnBoards, claim-Keeps, set_stage-stable, ask_ai-Keeps, start_stage-Keeps,
}

module _ (P : List StageRow → Type 0) (stable : WorkStable P) (sv : Services) where
  abbrev K : {A : Type 0} → Run A → Type 0
  K = Keeps (OnBoards P)

  retire_scenarios-Keeps :
      (x : SessionRow) (ss : ℕ) (target : Option (List ℕ))
      → K (act (on_db (retire_scenarios x ss target)))
  unfolding retire_scenarios
  retire_scenarios-Keeps x ss none = record { at = λ w g. record { now = g.now; saved = g.saved } }
  retire_scenarios-Keeps x ss (some ids) = record {
    at = λ w g. record { now = g.now; saved = g.saved };
  }

  save_scenario-Keeps :
      (x : SessionRow) (ss scoped_id epoch : ℕ) (type name : Option String) (scenario : Json)
      → K (act (save_scenario sv x ss scoped_id epoch type name scenario))
  unfolding save_scenario
  save_scenario-Keeps x ss scoped_id epoch type name scenario = record {
    at = λ w g. record { now = g.now; saved = g.saved };
  }

  write_one_scenario-Keeps :
      (x : SessionRow) (sub : Subsystem) (scoped_id : ℕ) (info : Option Threat) (epoch : ℕ)
      → K (write_one_scenario sv x sub scoped_id info epoch)
  unfolding write_one_scenario
  write_one_scenario-Keeps x sub scoped_id info epoch =
      ask_ai-Keeps P stable sv x sub.id "scenario" Expected.dict
        (Prompt.scenario x.asset_name sub (type_to_narrate info) (name_to_narrate info))
      then_keeps λ scenario.
          save_scenario-Keeps x sub.id scoped_id epoch (type_to_narrate info) (name_to_narrate info)
            scenario

  save_scoped-Keeps : (x : SessionRow) (ss : ℕ) (sc : Scored) → K (save_scoped sv x ss sc)
  unfolding save_scoped
  save_scoped-Keeps x ss sc = record { at = λ w g. record { now = g.now; saved = g.saved } }

  write_selected-Keeps :
      (x : SessionRow) (sub : Subsystem) (threats : List Threat) (epoch : ℕ) (scored : List Scored)
      (count : ℕ)
      → K (write_selected sv x sub threats epoch scored count)
  unfolding write_selected
  write_selected-Keeps x sub threats epoch [] count = Keeps-pure count
  write_selected-Keeps x sub threats epoch (sc ∷ scs) count =
      save_scoped-Keeps x sub.id sc then_keeps λ scoped_id.
      Keeps-if sc.selected
        (write_one_scenario-Keeps x sub scoped_id (enriched threats sc.threat_id) epoch)
        (Keeps-pure tt)
      then_keeps λ _.
          write_selected-Keeps x sub threats epoch scs (if sc.selected then suc count else count)

  close_scenarios-Keeps :
      (x : SessionRow) (ss epoch scoped selected : ℕ)
      → K (act (close_scenarios sv x ss epoch scoped selected))
  unfolding close_scenarios set_stage
  close_scenarios-Keeps x ss epoch scoped selected = record {
    at = λ w g. record {
      now =
          set_stage-stable P stable sv w.now x.session_id ss SubsystemLevel.scenarios
            StageStatus.awaiting_decision none w.db (λ e. cc) g.now;
      saved = g.saved;
    };
  }

  pub write_scenarios-Keeps :
      (x : SessionRow) (sub : Subsystem) (threats : List Threat) (task epoch : ℕ)
      (target : Option (List ℕ))
      → K (write_scenarios sv x sub threats task epoch target)
  unfolding write_scenarios scenarios_work
  write_scenarios-Keeps x sub threats task epoch target =
      claim-Keeps P stable sv x sub.id SubsystemLevel.scenarios epoch task (λ e. cc)
      then_keeps λ won.
          Keeps-if won
            (start_stage-Keeps P stable sv x sub.id SubsystemLevel.scenarios epoch then_keeps λ _.
              Keeps-read (λ w. targeted target (scored_now sv sub threats w.db))
              then_keeps λ scored. retire_scenarios-Keeps x sub.id target then_keeps λ _.
                  write_selected-Keeps x sub threats epoch scored 0 then_keeps λ count.
                  close_scenarios-Keeps x sub.id epoch (length scored) count then_keeps λ _.
                  Keeps-pure count)
            (Keeps-pure 0)
