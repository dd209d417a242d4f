-- ===== src/Pipeline/Results/Threats.antt =====
-- `find_threats` of app/pipeline/tasks.py and what `dal.active_threats` reads back.
use mathlib.Core.List.{Perm, reverse, reverse-append}
use tsg.Base.Lists.{reverse-Perm}
use tsg.Base.{
  ℕ, suc, ◌≡◌, sym, ◌∙◌, ap, String, Bool, true, false, Option, none, some, List, [], ◌∷◌, arith,
  ◌||◌, map, if◌then◌else◌, nat_eq, select_where, select_where_spent, select_where_hit,
}
use tsg.Enums.{SubsystemLevel}
use tsg.Json.{Json, Items, Fields, get, items_of}
use tsg.Models.{SessionRow, Subsystem, ThreatRow}
use tsg.Dal.Stages.{set_stage}
use tsg.Dal.Outputs.{
  Threat, is_current, supersede, threat_of_row, active_threats, threat_generation,
}
use tsg.Failure.{Attempt, returns, raises}
use tsg.World.{World, on_db}
use tsg.Pipeline.Grounding.{GroundingResult, find_threat_in_library, ensure_text}
use tsg.Pipeline.Validation.{Expected}
use tsg.Pipeline.Run.{Services, Prompt, pure, act}
use tsg.Pipeline.Yields.{Yields, Returned, ◌then_yields◌, Yields-pure, Yields-read, Yields-won}
use tsg.Pipeline.Stages.{
  claim, out_of_scope, place_proposal, place_proposals, retire_threats, close_threats, threats_work,
  find_threats, tally, threat_row, threat_of_result, insert_threat, name_field, type_names,
  category_names,
}
use tsg.Pipeline.Results.{ask_ai-Yields, start_stage-Yields}

module _ (sv : Services) (x : SessionRow) (ss : ℕ) where
  -- The current threats of the supporting system are `ts`.
  abbrev Saved : List Threat → World → Type 0
  Saved ts w =
      map threat_of_row (select_where (is_current x.session_id ss) w.db.threats) ≡ reverse ts

  place_proposal-Yields :
      (types categories : List String) (j : Json) (acc : List Threat × ℕ)
      → Yields
          (Saved acc.0)
          (place_proposal sv x ss types categories j)
          (λ placed. Saved (tally sv placed acc).0)
  unfolding place_proposal
  place_proposal-Yields types categories (Json.obj p) (ts, n) = record {
    at = λ w g.
        pick w g (out_of_scope sv types type || out_of_scope sv categories category)
          (find_threat_in_library sv.py sv.settings sv.models w.db x.sector_ids p);
  }
    where
      type : String
      type = ensure_text (get p "type") ""

      category : String
      category = ensure_text (get p "category") ""

      row : World → GroundingResult → ThreatRow
      row w v =
          threat_row sv x ss category type (name_field sv p) v (sv.uuid4 w.drawn)
            (record w { drawn = suc w.drawn })

      pick :
          (w : World)
          → Saved ts w
          → (b : Bool) (r : Attempt GroundingResult)
          → let result : Attempt (Option Threat) × World = if b then (returns none, w) else elim r [
            | raises e ↦ (raises e, w)
            | returns v ↦ (
              returns (some (threat_of_result sv (sv.uuid4 w.drawn) type (name_field sv p) v)),
              insert_threat sv (row w v) (record w { drawn = suc w.drawn }),
            )
          ] in
            Returned (λ placed. Saved (tally sv placed (ts, n)).0) result
      pick w g true r = g
      pick w g false (raises e) = tt
      pick w g false (returns v) =
          let t = threat_of_result sv (sv.uuid4 w.drawn) type (name_field sv p) v in
          ap (map threat_of_row)
            (select_where_hit (is_current x.session_id ss) (row w v) w.db.threats (ground arith))
          ∙ ap (◌∷◌ t) g
          ∙ sym (reverse-append ts (t ∷ []))
  place_proposal-Yields types categories Json.null acc = record { at = λ w g. tt }
  place_proposal-Yields types categories (Json.bool b) acc = record { at = λ w g. tt }
  place_proposal-Yields types categories (Json.num n) acc = record { at = λ w g. tt }
  place_proposal-Yields types categories (Json.str t) acc = record { at = λ w g. tt }
  place_proposal-Yields types categories (Json.arr a) acc = record { at = λ w g. tt }

  place_proposals-Yields :
      (types categories : List String) (js : Items) (acc : List Threat × ℕ)
      → Yields
          (Saved acc.0)
          (place_proposals sv x ss types categories js acc)
          (λ found. Saved found.0)
  unfolding place_proposals
  place_proposals-Yields types categories Items.nil acc = Yields-pure acc (λ w g. g)
  place_proposals-Yields types categories (Items.cons j rest) acc =
      place_proposal-Yields types categories j acc then_yields λ placed.
      place_proposals-Yields types categories rest (tally sv placed acc)

  retire_threats-Yields :
      Yields (λ w. Unit {0}) (act (on_db (retire_threats sv x ss [] []))) (λ _. Saved [])
  unfolding retire_threats supersede
  retire_threats-Yields = record {
    at = λ w g. ap (map threat_of_row) (
        select_where_spent (is_current x.session_id ss) (λ r. record r { superseded = true })
          (λ r h. ground arith) w.db.threats);
  }

  close_threats-Yields :
      (epoch : ℕ) (found : List Threat × ℕ)
      → Yields (Saved found.0) (act (close_threats sv x ss epoch found)) (λ _. Saved found.0)
  unfolding close_threats set_stage
  close_threats-Yields epoch found = record { at = λ w g. g }

threats_work-Yields :
    (sv : Services) (x : SessionRow) (sub : Subsystem) (profile : Fields) (epoch : ℕ)
    → Yields (λ w. Unit {0}) (threats_work sv x sub profile epoch [] []) (Saved sv x sub.id)
unfolding threats_work
threats_work-Yields sv x sub profile epoch =
    start_stage-Yields (λ _ _ _ _. Unit) x sub.id SubsystemLevel.threats epoch then_yields λ _.
    Yields-read (λ w. type_names sv [] w.db) then_yields λ types.
    Yields-read (λ w. category_names sv [] [] w.db) then_yields λ categories.
    ask_ai-Yields sv (λ _ _ _ _. Unit) x sub.id "threats" Expected.list
      (Prompt.threats x.asset_name sub profile types categories)
    then_yields λ proposals. retire_threats-Yields sv x sub.id then_yields λ _.
        place_proposals-Yields sv x sub.id types categories (items_of proposals) ([], 0)
        then_yields λ found. close_threats-Yields sv x sub.id epoch found then_yields λ _.
            Yields-pure found.0 (λ w g. g)

-- The threats that the stage returns are those that `active_threats` reads afterwards, in some order:
-- the claim is won, nothing raises, and the run is not restricted to types or categories.
pub find_threats_saved :
    (sv : Services) (x : SessionRow) (sub : Subsystem) (profile : Fields) (task epoch : ℕ)
    (w : World) (ts : List Threat)
    → (claim sv x sub.id SubsystemLevel.threats epoch task w).0 ≡ returns true
    → (find_threats sv x sub profile task epoch [] [] w).0 ≡ returns ts
    → Perm
        (active_threats x.session_id sub.id (find_threats sv x sub profile task epoch [] [] w).1.db)
        ts
unfolding find_threats active_threats
find_threats_saved sv x sub profile task epoch w ts won e = reverse-Perm (
    Yields-won (claim sv x sub.id SubsystemLevel.threats epoch task)
      (threats_work sv x sub profile epoch [] []) (pure []) ts w
      (threats_work-Yields sv x sub profile epoch) tt won e)
