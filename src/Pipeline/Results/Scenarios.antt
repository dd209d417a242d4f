-- ===== src/Pipeline/Results/Scenarios.antt =====
-- `write_scenarios` of app/pipeline/tasks.py: the rows of a full run of the stage.
use mathlib.Core.List.{Perm, reverse_aux}
use tsg.Base.Lists.{reverse-Perm, Perm-path}
use tsg.Base.{
  ℕ, suc, ◌+◌, ◌≡◌, refl, sym, ◌++◌, map, select_where_spent, select_where_hit, ◌∙◌, ap, subst,
  String, Bool, true, false, Option, none, some, List, [], ◌∷◌, arith, length, if◌then◌else◌,
  nat_eq, count_where, count_where_spent, select_where,
}
use tsg.Base.Sort.{order_by}
use tsg.Enums.{SubsystemLevel}
use tsg.Json.{Json}
use tsg.Models.{Db, SessionRow, Subsystem, ScopedRow, OutputRow}
use tsg.Dal.Stages.{claim_stage, set_stage}
use tsg.Dal.Library.{active_threat_rules, is_rule_of}
use tsg.Dal.Outputs.{Threat, is_current, supersede, scoped_generation, output_generation}
use tsg.Failure.{returns}
use tsg.World.{World, on_db}
use tsg.Pipeline.Scoping.{Scored, score_threats}
use tsg.Pipeline.Validation.{Expected}
use tsg.Pipeline.Run.{Services, Prompt, pure, act, read}
use tsg.Pipeline.Yields.{Yields, ◌then_yields◌, Yields-pure, Yields-mono, Yields-given, Yields-won}
use tsg.Pipeline.Stages.{claim, start_stage}
use tsg.Pipeline.Scenarios.{
  retire_scenarios, save_scenario, write_one_scenario, save_scoped, scoped_row, write_selected,
  close_scenarios, type_ids_of, scenarios_work, write_scenarios, type_to_narrate, name_to_narrate,
  enriched, targeted, scored_now,
}
use tsg.Pipeline.Results.{Rows, OnRows, ask_ai-Yields}

-- The scored threat that a row keeps.
abbrev pub scored_of : ScopedRow → Scored
scored_of r = record {
  threat_id = r.threat_id;
  score = r.score;
  rank = r.scope_rank;
  selected = r.selected;
  reason = r.reason;
  factors = r.factors;
}

-- The current scoped threats of a supporting system.
abbrev pub scoped_rows : SessionRow → Subsystem → List ScopedRow → List ScopedRow
scoped_rows x sub = select_where (is_current x.session_id sub.id)

-- The ids of the selected ones.
abbrev pub scoped_ids : List ScopedRow → List ℕ
scoped_ids rows = map (λ r. r.scoped_threat_id) (select_where (λ r. r.selected) rows)

-- The scoped threats that the current scenarios name.
abbrev pub narrated_ids : SessionRow → Subsystem → List OutputRow → List ℕ
narrated_ids x sub rows =
    map (λ o. o.scoped_threat_id) (select_where (is_current x.session_id sub.id) rows)

module _ (sv : Services) (x : SessionRow) (sub : Subsystem) where
  -- The current scoped threats are `acc`, the `k` current scenarios are for those that are selected,
  -- and a scenario is still to be written for each of `pending`.
  abbrev Made : List Scored → List ℕ → ℕ → Rows
  Made acc pending k profiles threats scoped outputs =
      (map scored_of (scoped_rows x sub scoped) ≡ acc)
      × (pending ++ narrated_ids x sub outputs ≡ scoped_ids (scoped_rows x sub scoped))
      × (count_where (is_current x.session_id sub.id) outputs ≡ k)

  retire_scenarios-Yields :
      Yields
        (λ w. Unit {0})
        (act (on_db (retire_scenarios x sub.id none)))
        (λ _. OnRows (Made [] [] 0))
  unfolding retire_scenarios supersede
  retire_scenarios-Yields = record {
    at = λ w g.
        let no_scoped =
          select_where_spent (is_current x.session_id sub.id)
            (λ (r : ScopedRow). record r { superseded = true }) (λ r h. ground arith) w.db.scoped in
        let no_output =
          select_where_spent (is_current x.session_id sub.id)
            (λ (r : OutputRow). record r { superseded = true }) (λ r h. ground arith)
            w.db.outputs in
        (
          ap (map scored_of) no_scoped,
          ap (map (λ o. o.scoped_threat_id)) no_output ∙ sym (ap scoped_ids no_scoped),
          count_where_spent (is_current x.session_id sub.id) (λ r. record r { superseded = true })
              (λ r h. ground arith) w.db.outputs,
        );
  }

  save_scenario-Yields :
      (acc : List Scored) (k scoped_id epoch : ℕ) (type name : Option String) (scenario : Json)
      → Yields
          (OnRows (Made acc (scoped_id ∷ []) k))
          (act (save_scenario sv x sub.id scoped_id epoch type name scenario))
          (λ _. OnRows (Made acc [] (suc k)))
  unfolding save_scenario
  save_scenario-Yields acc k scoped_id epoch type name scenario = record {
    at = λ w g. (g.0, ground (arith, g.1), ground (arith, g.2));
  }

  write_one_scenario-Yields :
      (acc : List Scored) (k scoped_id : ℕ) (info : Option Threat) (epoch : ℕ)
      → Yields
          (OnRows (Made acc (scoped_id ∷ []) k))
          (write_one_scenario sv x sub scoped_id info epoch)
          (λ _. OnRows (Made acc [] (suc k)))
  unfolding write_one_scenario
  write_one_scenario-Yields acc k scoped_id info epoch =
      ask_ai-Yields sv (Made acc (scoped_id ∷ []) k) x sub.id "scenario" Expected.dict
        (Prompt.scenario x.asset_name sub (type_to_narrate info) (name_to_narrate info))
      then_yields λ scenario.
          save_scenario-Yields acc k scoped_id epoch (type_to_narrate info) (name_to_narrate info)
            scenario

  -- What is to be written for a new row.
  abbrev to_write : Bool → ℕ → List ℕ
  to_write b id = if b then id ∷ [] else []

  save_scoped-Yields :
      (acc : List Scored) (k : ℕ) (sc : Scored)
      → Yields
          (OnRows (Made acc [] k))
          (save_scoped sv x sub.id sc)
          (λ id. OnRows (Made (sc ∷ acc) (to_write sc.selected id) k))
  unfolding save_scoped
  save_scoped-Yields acc k sc = record {
    at = λ w g.
        let row = scoped_row sv x sub.id sc (sv.uuid4 w.drawn) (record w { drawn = suc w.drawn }) in
        let hit =
          select_where_hit (is_current x.session_id sub.id) row w.db.scoped (ground arith) in
        (
          ap (map scored_of) hit ∙ ap (◌∷◌ sc) g.0,
          listed row (scoped_rows x sub w.db.scoped) sc.selected (narrated_ids x sub w.db.outputs)
                g.1
              ∙ sym (ap scoped_ids hit),
          g.2,
        );
  }
    where
      listed :
          (row : ScopedRow) (rows : List ScopedRow) (b : Bool) (ids : List ℕ)
          → ids ≡ scoped_ids rows
          → to_write b row.scoped_threat_id ++ ids
            ≡ map
                (λ r. r.scoped_threat_id)
                (if b
                  then row ∷ select_where (λ r. r.selected) rows
                  else select_where (λ r. r.selected) rows)
      listed row rows true ids h = ap (◌∷◌ row.scoped_threat_id) h
      listed row rows false ids h = h

  -- The loop from the scored threats `acc` and `k` scenarios.
  abbrev Written : List Scored → ℕ → List Scored → ℕ → World → Type 0
  Written acc k scored count w =
      OnRows (Made (reverse_aux scored acc) [] count) w
      × (count ≡ k + count_where (λ sc. sc.selected) scored)

  write_selected-Yields :
      (threats : List Threat) (epoch : ℕ) (scored : List Scored) (acc : List Scored) (k : ℕ)
      → Yields
          (OnRows (Made acc [] k))
          (write_selected sv x sub threats epoch scored k)
          (Written acc k scored)
  unfolding write_selected
  write_selected-Yields threats epoch [] acc k = Yields-pure k (λ w g. (g, omega arith))
  write_selected-Yields threats epoch (sc ∷ scs) acc k =
      save_scoped-Yields acc k sc then_yields λ scoped_id.
      narrated scoped_id sc.selected then_yields λ _.
      Yields-mono (λ count w g. (g.0, ground (arith, g.1)))
        (write_selected-Yields threats epoch scs (sc ∷ acc) (if sc.selected then suc k else k))
    where
      narrated :
          (scoped_id : ℕ) (b : Bool)
          → Yields
              (OnRows (Made (sc ∷ acc) (to_write b scoped_id) k))
              (if b
                then write_one_scenario sv x sub scoped_id (enriched threats sc.threat_id) epoch
                else pure tt)
              (λ _. OnRows (Made (sc ∷ acc) [] (if b then suc k else k)))
      narrated scoped_id true =
          write_one_scenario-Yields (sc ∷ acc) k scoped_id (enriched threats sc.threat_id) epoch
      narrated scoped_id false = Yields-pure tt (λ w g. g)

  scenarios_work-Yields :
      (threats : List Threat) (epoch : ℕ) (scored : List Scored)
      → Yields
          (λ w. scored_now sv sub threats w.db ≡ scored)
          (scenarios_work sv x sub threats epoch none)
          (Written [] 0 scored)
  unfolding scenarios_work close_scenarios set_stage
  scenarios_work-Yields threats epoch scored = started then_yields λ _. reading then_yields λ found.
      Yields-given λ same. retire_scenarios-Yields then_yields λ _.
      write_selected-Yields threats epoch found [] 0 then_yields λ count.
      closed found same count then_yields λ _. Yields-pure count (λ w g. g)
    where
      started :
          Yields
            (λ w. scored_now sv sub threats w.db ≡ scored)
            (act (start_stage x sub.id SubsystemLevel.scenarios epoch))
            (λ _ w. scored_now sv sub threats w.db ≡ scored)
      started = record { at = λ w g. g }

      reading :
          Yields
            (λ w. scored_now sv sub threats w.db ≡ scored)
            (read (λ w. targeted none (scored_now sv sub threats w.db)))
            (λ found w. found ≡ scored)
      reading = record { at = λ w g. g }

      closed :
          (found : List Scored)
          → found ≡ scored
          → (count : ℕ)
          → Yields
              (Written [] 0 found count)
              (act (close_scenarios sv x sub.id epoch (length found) count))
              (λ _. Written [] 0 scored count)
      closed found same count = record {
        at = λ w g.
            subst
              (λ sc.
                Written [] 0 sc count (close_scenarios sv x sub.id epoch (length found) count w))
              same g;
      }

active_threat_rules_same :
    (ids : List ℕ) (db db' : Db)
    → db.threat_rules ≡ db'.threat_rules
    → active_threat_rules ids db ≡ active_threat_rules ids db'
unfolding active_threat_rules
active_threat_rules_same [] db db' e = refl
active_threat_rules_same (i ∷ is) db db' e =
    ap (λ rs. order_by (λ r. r.threat_rule_id) (select_where (is_rule_of (i ∷ is)) rs)) e

scored_now_rules :
    (sv : Services) (sub : Subsystem) (threats : List Threat) (db db' : Db)
    → db.threat_rules ≡ db'.threat_rules
    → scored_now sv sub threats db ≡ scored_now sv sub threats db'
scored_now_rules sv sub threats db db' e =
    ap
      (λ rules.
        score_threats sv.py threats (some sub) rules sv.settings.scoping_score_threshold
          sv.settings.scoping_top_n)
      (active_threat_rules_same (type_ids_of threats) db db' e)

claim_rules :
    (sv : Services) (x : SessionRow) (ss : ℕ) (level : SubsystemLevel) (epoch task : ℕ) (w : World)
    → (claim sv x ss level epoch task w).1.db.threat_rules ≡ w.db.threat_rules
unfolding claim_stage
claim_rules sv x ss level epoch task w = refl

-- After a run of the stage over all threats, the current scoped threats of the supporting system are the
-- scored threats, each once with its score, rank, selection, reason and factors, and the current
-- scenarios are one for each selected scoped threat, whose id it names; the run reports their
-- number. The claim is won and nothing raises.
pub write_scenarios_rows :
    (sv : Services) (x : SessionRow) (sub : Subsystem) (threats : List Threat) (task epoch : ℕ)
    (w : World) (count : ℕ)
    → (claim sv x sub.id SubsystemLevel.scenarios epoch task w).0 ≡ returns true
    → (write_scenarios sv x sub threats task epoch none w).0 ≡ returns count
    → let w' = (write_scenarios sv x sub threats task epoch none w).1 in
      let scored = scored_now sv sub threats w.db in
      let rows = scoped_rows x sub w'.db.scoped in
      Perm (map (scored_of) rows) scored
      × Perm (narrated_ids x sub w'.db.outputs) (scoped_ids rows)
      × (count_where (is_current x.session_id sub.id) w'.db.outputs ≡ count)
      × (count ≡ count_where (λ sc. sc.selected) scored)
unfolding write_scenarios
write_scenarios_rows sv x sub threats task epoch w count won e =
    let scored = scored_now sv sub threats w.db in
    let ((rows, ids, outputs), selected) =
      Yields-won (claim sv x sub.id SubsystemLevel.scenarios epoch task)
        (scenarios_work sv x sub threats epoch none) (pure 0) count w
        (scenarios_work-Yields sv x sub threats epoch scored)
        (scored_now_rules sv sub threats
          (claim sv x sub.id SubsystemLevel.scenarios epoch task w).1.db w.db
          (claim_rules sv x sub.id SubsystemLevel.scenarios epoch task w))
        won e in
    (reverse-Perm rows, Perm-path ids, outputs, selected ∙ omega arith)
