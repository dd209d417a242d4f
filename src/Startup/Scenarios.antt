-- ===== src/Startup/Scenarios.antt =====
-- The third stage of app/pipeline/tasks.py against the start-up check of app/db/invariants.py.
use tsg.Base.{
  ℕ, suc, ◌≡◌, refl, String, Bool, true, false, not, ◌&&◌, Option, none, some, List, [], ◌∷◌, arith,
  ◌==◌, nat_eq, pair_eq, if◌then◌else◌, All, contains, count_where, count_where-le, length,
  update_where,
}
use tsg.Enums.{SubsystemLevel}
use tsg.Json.{Json}
use tsg.Models.{SessionRow, Subsystem, ProfileRow, OutputRow}
use tsg.Dal.Outputs.{
  Threat, is_current, supersede, supersede_by_scoped_threats, active_scoped_threat_ids,
  output_generation, scoped_generation,
}
use tsg.Dal.Stages.{claim_stage, set_stage}
use tsg.Failure.{returns}
use tsg.World.{World, on_db}
use tsg.Pipeline.Scoping.{Scored}
use tsg.Pipeline.Validation.{Expected, parse_json}
use tsg.Pipeline.Run.{Services, Prompt, pure, act, ask_ai, hear, settle}
use tsg.Pipeline.Yields.{
  Yields, Returned, ◌then_yields◌, Yields-if, Yields-pure, Yields-read, Yields-returns,
}
use tsg.Pipeline.Stages.{claim, start_stage}
use tsg.Pipeline.Scenarios.{
  retire_scenarios, save_scenario, write_one_scenario, save_scoped, write_selected, close_scenarios,
  scenarios_work, write_scenarios, type_to_narrate, name_to_narrate, enriched, targeted, scored_now,
}
use tsg.Startup.{Engine, profile_columns, output_columns, verify_startup}
use tsg.Startup.Drawn.{Drawn, Holds, Fresh, later, more, undrawn, retired_groups, retired_drawn}
use tsg.Startup.Active.{UniqueActive}
use tsg.Startup.Boot.{verify_startup_lem}

module _ (sv : Services) where
  -- A reply may cost an id, and leaves the tables of the results alone.
  ask_ai-Grows :
      (P : ℕ → List ProfileRow → List OutputRow → Type 0)
      → ((n : ℕ) (profiles : List ProfileRow) (outputs : List OutputRow)
          → P n profiles outputs
          → P (suc n) profiles outputs)
      → (x : SessionRow) (ss : ℕ) (stage : String) (expected : Expected) (prompt : Prompt)
      → let G : World → Type 0 = λ w. P w.drawn w.db.profiles w.db.outputs in
        Yields G (ask_ai sv x ss stage expected prompt) (λ _. G)
  unfolding ask_ai
  ask_ai-Grows P grow x ss stage expected prompt = record {
    at = λ w g. heard w g (sv.chat w.asked prompt);
  }
    where
      G : World → Type 0
      G w = P w.drawn w.db.profiles w.db.outputs

      settled :
          (w : World)
          → G w
          → (text : String) (reply : Option Json)
          → Returned
              (λ _. G)
              (settle sv x ss stage expected text reply (record w { asked = suc w.asked }))
      settled w g text none = tt
      settled w g text (some j) = grow w.drawn w.db.profiles w.db.outputs g

      heard :
          (w : World)
          → G w
          → (reply : Option String)
          → Returned (λ _. G) (hear sv x ss stage expected reply (record w { asked = suc w.asked }))
      heard w g none = tt
      heard w g (some text) = settled w g text (parse_json sv.py expected text)

  module _ (inj : (i j : ℕ) → sv.uuid4 i ≡ sv.uuid4 j → i ≡ j) (x : SessionRow)
      (sub : Subsystem) where
    save_scoped-Fresh : (sc : Scored) → Yields (Holds sv) (save_scoped sv x sub.id sc) (Fresh sv)
    unfolding save_scoped
    save_scoped-Fresh sc = record {
      at = λ w g. (
        (g.0, g.1, more sv w.drawn w.db.outputs g.2),
        (w.drawn, omega arith, refl),
        undrawn sv inj w.drawn w.db.outputs g.2,
      );
    }

    save_scenario-Holds :
        (id epoch : ℕ) (type name : Option String) (scenario : Json)
        → Yields
            (Fresh sv id)
            (act (save_scenario sv x sub.id id epoch type name scenario))
            (λ _. Holds sv)
    unfolding save_scenario
    save_scenario-Holds id epoch type name scenario = record {
      at = λ w g.
          let (held, drawn, fresh) = g in
          (
            held.0,
            (λ k. ground (
              arith,
              held.1 k,
              fresh,
              count_where-le (λ r. not r.superseded && output_columns r == k)
                  (λ r. r.scoped_threat_id == k.1) (λ r e. ground (arith, e)) w.db.outputs,
            )),
            (later sv w.drawn id drawn, more sv w.drawn w.db.outputs held.2),
          );
    }

    narrated :
        (id : ℕ) (info : Option Threat) (epoch : ℕ) (b : Bool)
        → Yields
            (Fresh sv id)
            (if b then write_one_scenario sv x sub id info epoch else pure tt)
            (λ _. Holds sv)
    unfolding write_one_scenario
    narrated id info epoch false = Yields-pure tt (λ w g. g.0)
    narrated id info epoch true =
        ask_ai-Grows
          (λ n profiles outputs.
            (UniqueActive profile_columns (λ r. r.superseded) profiles
              × UniqueActive output_columns (λ r. r.superseded) outputs
              × All (λ r. Drawn sv n r.scoped_threat_id) outputs)
            × Drawn sv n id
            × (count_where (λ r. r.scoped_threat_id == id) outputs ≡ 0))
          (λ n profiles outputs g.
            ((g.0.0, g.0.1, more sv n outputs g.0.2), later sv n id g.1, g.2))
          x sub.id "scenario" Expected.dict
          (Prompt.scenario x.asset_name sub (type_to_narrate info) (name_to_narrate info))
        then_yields λ scenario.
            save_scenario-Holds id epoch (type_to_narrate info) (name_to_narrate info) scenario

    write_selected-Holds :
        (threats : List Threat) (epoch : ℕ) (scored : List Scored) (count : ℕ)
        → Yields (Holds sv) (write_selected sv x sub threats epoch scored count) (λ _. Holds sv)
    unfolding write_selected
    write_selected-Holds threats epoch [] count = Yields-pure count (λ w g. g)
    write_selected-Holds threats epoch (sc ∷ scs) count = save_scoped-Fresh sc then_yields λ id.
        narrated id (enriched threats sc.threat_id) epoch sc.selected then_yields λ _.
        write_selected-Holds threats epoch scs (if sc.selected then suc count else count)

    retire_outputs :
        (p : OutputRow → Bool) (n : ℕ) (outputs : List OutputRow)
        → UniqueActive output_columns (λ r. r.superseded) outputs
          × All (λ r. Drawn sv n r.scoped_threat_id) outputs
        → let outputs' = update_where p output_generation.retire outputs in
          UniqueActive output_columns (λ r. r.superseded) outputs'
          × All (λ r. Drawn sv n r.scoped_threat_id) outputs'
    retire_outputs p n outputs g = (
      (λ k. omega (arith, g.0 k, retired_groups sv p k outputs)),
      retired_drawn sv p n outputs g.1,
    )

    retire_scenarios-Holds :
        (target : Option (List ℕ))
        → Yields (Holds sv) (act (on_db (retire_scenarios x sub.id target))) (λ _. Holds sv)
    unfolding retire_scenarios supersede supersede_by_scoped_threats
    retire_scenarios-Holds none = record {
      at = λ w g.
          let (outputs, drawn) =
            retire_outputs (is_current x.session_id sub.id) w.drawn w.db.outputs (g.1, g.2) in
          (g.0, outputs, drawn);
    }
    retire_scenarios-Holds (some ids) = record {
      at = λ w g.
          let (outputs, drawn) =
            chosen (active_scoped_threat_ids x.session_id sub.id ids w.db.scoped) w.drawn
              w.db.outputs (g.1, g.2) in
          (g.0, outputs, drawn);
    }
      where
        chosen :
            (scoped_ids : List ℕ) (n : ℕ) (outputs : List OutputRow)
            → UniqueActive output_columns (λ r. r.superseded) outputs
              × All (λ r. Drawn sv n r.scoped_threat_id) outputs
            → let outputs' = supersede_by_scoped_threats x.session_id sub.id scoped_ids outputs in
              UniqueActive output_columns (λ r. r.superseded) outputs'
              × All (λ r. Drawn sv n r.scoped_threat_id) outputs'
        chosen [] n outputs g = g
        chosen (i ∷ is) n outputs g =
            retire_outputs
              (λ r. is_current x.session_id sub.id r && contains (i ∷ is) r.scoped_threat_id) n
              outputs g

    write_scenarios-Holds :
        (threats : List Threat) (task epoch : ℕ) (target : Option (List ℕ))
        → Yields (Holds sv) (write_scenarios sv x sub threats task epoch target) (λ _. Holds sv)
    unfolding write_scenarios scenarios_work close_scenarios claim_stage set_stage
    write_scenarios-Holds threats task epoch target = claimed then_yields λ won.
        Yields-if won
          (started then_yields λ _.
            Yields-read (λ w. targeted target (scored_now sv sub threats w.db))
            then_yields λ scored. retire_scenarios-Holds target then_yields λ _.
                write_selected-Holds threats epoch scored 0 then_yields λ count.
                closed (length scored) count then_yields λ _. Yields-pure count (λ w g. g))
          (Yields-pure 0 (λ w g. g))
      where
        claimed :
            Yields
              (Holds sv)
              (claim sv x sub.id SubsystemLevel.scenarios epoch task)
              (λ _. Holds sv)
        claimed = record { at = λ w g. g }

        started :
            Yields
              (Holds sv)
              (act (start_stage x sub.id SubsystemLevel.scenarios epoch))
              (λ _. Holds sv)
        started = record { at = λ w g. g }

        closed :
            (scored count : ℕ)
            → Yields
                (Holds sv)
                (act (close_scenarios sv x sub.id epoch scored count))
                (λ _. Holds sv)
        closed scored count = record { at = λ w g. (g.0, g.1, more sv w.drawn w.db.outputs g.2) }

-- A run of `write_scenarios` that returns, whether it rebuilds all rows or some targets, keeps a
-- database that the start-up check passes one that it passes, and the ids of scoped threats that
-- scenarios name stay ids that were drawn. No two draws give the same id, and the ids that
-- scenarios name at the start were drawn.
pub write_scenarios_boots :
    (sv : Services) (x : SessionRow) (sub : Subsystem) (threats : List Threat) (task epoch : ℕ)
    (target : Option (List ℕ)) (w : World) (upper : String → String) (engine : Engine) (count : ℕ)
    → ((i j : ℕ) → sv.uuid4 i ≡ sv.uuid4 j → i ≡ j)
    → All (λ r. Drawn sv w.drawn r.scoped_threat_id) w.db.outputs
    → verify_startup upper (record engine { tables = w.db }) ≡ none
    → (write_scenarios sv x sub threats task epoch target w).0 ≡ returns count
    → let w' = (write_scenarios sv x sub threats task epoch target w).1 in
      (verify_startup upper (record engine { tables = w'.db }) ≡ none)
      × All (λ r. Drawn sv w'.drawn r.scoped_threat_id) w'.db.outputs
write_scenarios_boots sv x sub threats task epoch target w upper engine count inj drawn boots e =
    let w' = (write_scenarios sv x sub threats task epoch target w).1 in
    let (start, once) = (verify_startup_lem upper (record engine { tables = w.db })).0 boots in
    let (profiles, outputs, drawn') =
      Yields-returns count w (write_scenarios-Holds sv inj x sub threats task epoch target)
        (once.0, once.1, drawn) e in
    (
      (verify_startup_lem upper (record engine { tables = w'.db })).1 (start, (profiles, outputs)),
      drawn',
    )
