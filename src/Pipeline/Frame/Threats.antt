-- ===== src/Pipeline/Frame/Threats.antt =====
-- `find_threats` of app/pipeline/tasks.py and the stage board.
use tsg.Base.{
  ℕ, suc, ◌≡◌, refl, String, Bool, true, false, Option, none, some, List, [], ◌∷◌, ◌||◌,
  if◌then◌else◌,
}
use tsg.Enums.{StageStatus, SubsystemLevel}
use tsg.Json.{Json, Items, Fields, get, items_of}
use tsg.Models.{Db, StageRow, SessionRow, Subsystem}
use tsg.Dal.Stages.{set_stage}
use tsg.Dal.Outputs.{Threat}
use tsg.Failure.{Attempt, returns, raises}
use tsg.World.{World, on_db}
use tsg.Pipeline.Grounding.{GroundingResult, find_threat_in_library, ensure_text}
use tsg.Pipeline.Validation.{Expected}
use tsg.Pipeline.Run.{Services, Prompt, Run, act}
use tsg.Pipeline.Keeps.{Keeps, ◌then_keeps◌, Keeps-if, Keeps-pure, Keeps-read}
use tsg.Pipeline.Stages.{
  out_of_scope, place_proposal, place_proposals, retire_threats, close_threats, threats_work,
  find_threats, tally, threat_row, threat_of_result, insert_threat, name_field, type_names,
  category_names,
}
use tsg.Pipeline.Frame.{
  WorkStable, OnBoards, claim-Keeps, set_stage-stable, ask_ai-Keeps, start_stage-Keeps,
}

retire_threats_stages :
    (sv : Services) (x : SessionRow) (ss : ℕ) (type_ids category_ids : List ℕ) (db : Db)
    → (retire_threats sv x ss type_ids category_ids db).stages ≡ db.stages
unfolding retire_threats
retire_threats_stages sv x ss [] [] db = refl
retire_threats_stages sv x ss (t ∷ ts) category_ids db = refl
retire_threats_stages sv x ss [] (c ∷ cs) db = refl

module _ (P : List StageRow → Type 0) (stable : WorkStable P) (sv : Services) where
  abbrev K : {A : Type 0} → Run A → Type 0
  K = Keeps (OnBoards P)

  place_proposal-Keeps :
      (x : SessionRow) (ss : ℕ) (types categories : List String) (j : Json)
      → K (place_proposal sv x ss types categories j)
  unfolding place_proposal
  place_proposal-Keeps x ss types categories (Json.obj p) = record {
    at = λ w g.
        pick w g
          (out_of_scope sv types (ensure_text (get p "type") "")
            || out_of_scope sv categories (ensure_text (get p "category") ""))
          (find_threat_in_library sv.py sv.settings sv.models w.db x.sector_ids p);
  }
    where
      type : String
      type = ensure_text (get p "type") ""

      category : String
      category = ensure_text (get p "category") ""

      pick :
          (w : World)
          → OnBoards P w
          → (b : Bool) (r : Attempt GroundingResult)
          → let result : Attempt (Option Threat) × World = if b then (returns none, w) else elim r [
            | raises e ↦ (raises e, w)
            | returns g ↦ (
              returns (some (threat_of_result sv (sv.uuid4 w.drawn) type (name_field sv p) g)),
              insert_threat sv
                  (threat_row sv x ss category type
                    (name_field sv p)
                    g
                    (sv.uuid4 w.drawn)
                    (record w { drawn = suc w.drawn }))
                  (record w { drawn = suc w.drawn }),
            )
          ] in
            OnBoards P result.1
      pick w g true r = g
      pick w g false (raises e) = g
      pick w g false (returns v) = record { now = g.now; saved = g.saved }
  place_proposal-Keeps x ss types categories Json.null = record { at = λ w g. g }
  place_proposal-Keeps x ss types categories (Json.bool b) = record { at = λ w g. g }
  place_proposal-Keeps x ss types categories (Json.num n) = record { at = λ w g. g }
  place_proposal-Keeps x ss types categories (Json.str t) = record { at = λ w g. g }
  place_proposal-Keeps x ss types categories (Json.arr a) = record { at = λ w g. g }

  place_proposals-Keeps :
      (x : SessionRow) (ss : ℕ) (types categories : List String) (js : Items)
      (acc : List Threat × ℕ)
      → K (place_proposals sv x ss types categories js acc)
  unfolding place_proposals
  place_proposals-Keeps x ss types categories Items.nil acc = Keeps-pure acc
  place_proposals-Keeps x ss types categories (Items.cons j rest) acc =
      place_proposal-Keeps x ss types categories j then_keeps λ placed.
      place_proposals-Keeps x ss types categories rest (tally sv placed acc)

  close_threats-Keeps :
      (x : SessionRow) (ss epoch : ℕ) (found : List Threat × ℕ)
      → K (act (close_threats sv x ss epoch found))
  unfolding close_threats set_stage
  close_threats-Keeps x ss epoch found = record {
    at = λ w g. record {
      now =
          set_stage-stable P stable sv w.now x.session_id ss SubsystemLevel.threats
            StageStatus.complete none w.db (λ e. cc) g.now;
      saved = g.saved;
    };
  }

  retire_threats-Keeps :
      (x : SessionRow) (ss : ℕ) (type_ids category_ids : List ℕ)
      → K (act (on_db (retire_threats sv x ss type_ids category_ids)))
  retire_threats-Keeps x ss type_ids category_ids = record {
    at = λ w g. record {
      now = rw (retire_threats_stages sv x ss type_ids category_ids w.db) g.now;
      saved = g.saved;
    };
  }

  pub find_threats-Keeps :
      (x : SessionRow) (sub : Subsystem) (profile : Fields) (task epoch : ℕ)
      (type_ids category_ids : List ℕ)
      → K (find_threats sv x sub profile task epoch type_ids category_ids)
  unfolding find_threats threats_work
  find_threats-Keeps x sub profile task epoch type_ids category_ids =
      claim-Keeps P stable sv x sub.id SubsystemLevel.threats epoch task (λ e. cc) then_keeps λ won.
      Keeps-if won
        (start_stage-Keeps P stable sv x sub.id SubsystemLevel.threats epoch then_keeps λ _.
          Keeps-read (λ w. type_names sv type_ids w.db) then_keeps λ types.
          Keeps-read (λ w. category_names sv type_ids category_ids w.db) then_keeps λ categories.
          ask_ai-Keeps P stable sv x sub.id "threats" Expected.list
            (Prompt.threats x.asset_name sub profile types categories)
          then_keeps λ proposals.
              retire_threats-Keeps x sub.id type_ids category_ids then_keeps λ _.
              place_proposals-Keeps x sub.id types categories (items_of proposals) ([], 0)
              then_keeps λ found.
                  close_threats-Keeps x sub.id epoch found then_keeps λ _. Keeps-pure found.0)
        (Keeps-pure [])
