-- ===== src/Tests/Pipeline.antt =====
-- The pipeline's theorems on concrete boards and threats.
use mathlib.Core.List.{flatten, Perm, Permᴰ}
use tsg.Base.{
  ℕ, ◌+◌, ◌≡◌, ◌≤◌, ◌↔◌, refl, none, some, List, [], ◌∷◌, true, false, arith, map, All, length, any,
  inr, count_where,
}
use tsg.Enums.{GroundingStatus, ThreatRuleType, StageStatus, SessionStatus, WorkflowStage}
use tsg.Json.{Json, Fields}
use tsg.Models.{Subsystem, ThreatRuleRow}
use tsg.Dal.Outputs.{Threat}
use tsg.Dal.Sessions.{is_session, load_session}
use tsg.Dal.Stages.{stage_rows}
use tsg.World.{World, SessionRef}
use tsg.Pipeline.Outcome.{review, cancelled, decide_session_outcome}
use tsg.Pipeline.Outcome.Cases.{Settled, Lacks, row_after}
use tsg.Pipeline.Outcome.Laws.{
  decide_session_outcome_lem, decide_session_outcome_done, decide_session_outcome_once,
}
use tsg.Pipeline.Scoping.{score_threats, evaluate, matches}
use tsg.Pipeline.Scoping.Order.{score_threats-Ranked, score_threats_order, Ranked, ranks_from}
use tsg.Pipeline.Scoping.Cutoff.{tech_gate_excludes, score_threats_selected, capped, is_eligible}
use tsg.Pipeline.Reaper.{split_into_batches, find_abandoned_sessions}
use tsg.Pipeline.Reaper.Batches.{split_into_batches_lem}
use tsg.Pipeline.Reaper.Abandoned.{find_abandoned_sessions_lem, Abandoned}
use tsg.Tests.Data.{
  plain, settings, board_db, running_session, session_row, db_of, world_of, lock_row, profile_row,
}

abbrev ids : ℕ → ℕ
ids n = 900 + n

abbrev ref : SessionRef
ref = record { session_id = 1; tenant_id = 1; entity_id = 10 }

abbrev settled_world : World
settled_world = world_of (db_of (running_session ∷ []) (lock_row ∷ profile_row ∷ []))

abbrev review_world : World
review_world =
    world_of
      (db_of (session_row 1 SessionStatus.active WorkflowStage.review ∷ []) (profile_row ∷ []))

decide_session_outcome_lem_example :
    let (answer, w') = decide_session_outcome ids ref settled_world in
    ((answer ≡ some review) ↔ (
      All Settled (StageStatus.awaiting_decision ∷ [])
      × (¬ Lacks StageStatus.awaiting_decision (StageStatus.awaiting_decision ∷ []))))
    × ((answer ≡ some cancelled) ↔ (
        All Settled (StageStatus.awaiting_decision ∷ [])
        × Lacks StageStatus.awaiting_decision (StageStatus.awaiting_decision ∷ [])
        × (¬ Lacks StageStatus.error (StageStatus.awaiting_decision ∷ []))))
    × (load_session 1 w'.db ≡ some (row_after answer 500 running_session))
decide_session_outcome_lem_example =
    decide_session_outcome_lem ids ref settled_world running_session StageStatus.awaiting_decision
      [] (unfold load_session in refl) (omega arith) refl (unfold stage_rows in refl)

decide_session_outcome_done_example :
    decide_session_outcome ids ref review_world ≡ (none, review_world)
decide_session_outcome_done_example =
    decide_session_outcome_done ids ref review_world
      (session_row 1 SessionStatus.active WorkflowStage.review) (unfold load_session in refl)
      (omega arith) (inr refl)

decide_session_outcome_once_example :
    let w' = (decide_session_outcome ids ref settled_world).1 in
    decide_session_outcome ids ref w' ≡ (none, w')
decide_session_outcome_once_example =
    decide_session_outcome_once ids ref settled_world running_session (unfold load_session in refl)
      (omega arith)

abbrev inner : Subsystem
inner = record {
  id = 7;
  name = "plc";
  fields = Fields.field "criticality" (Json.bool false) Fields.end;
}

abbrev gate : ThreatRuleRow
gate = record {
  threat_rule_id = 1;
  rule_type = ThreatRuleType.tech_gate;
  threat_type_id = 5;
  rule_key = "criticality";
  rule_value = none;
  metadata = none;
  is_active = true;
  is_deleted = false;
}

abbrev threat : ℕ → Threat
threat i = record {
  threat_id = i;
  grounding_status = GroundingStatus.confirm;
  threat_type = "malware";
  threat_name = none;
  library_threat_type = none;
  library_threat_name = none;
  threat_type_id = some i;
}

abbrev threats : List Threat
threats = threat 5 ∷ threat 6 ∷ []

score_threats-Ranked_example :
    let out = score_threats plain threats (some inner) (gate ∷ []) none (some 1) in
    Perm (map (λ x. x.threat_id) out) (5 ∷ 6 ∷ [])
    × (map (λ x. x.rank) out ≡ ranks_from 1 out)
    × Ranked out
score_threats-Ranked_example =
    score_threats-Ranked plain (some inner) (gate ∷ []) none (some 1) threats

tech_gate_excludes_example :
    All
      (λ x. x.threat_id ≡ 5 → x.selected ≡ false)
      (score_threats plain threats (some inner) (gate ∷ []) none none)
tech_gate_excludes_example =
    tech_gate_excludes plain (some inner) (gate ∷ []) none none 5 threats
      (λ e. unfold matches in refl, (λ e. absurd (ground (arith, e)), tt))

score_threats_selected_example :
    count_where
      (λ x. x.selected)
      (score_threats plain threats (some inner) (gate ∷ []) none (some 1))
    ≡ capped
        (some 1)
        (count_where (is_eligible none) (map (evaluate plain (some inner) (gate ∷ [])) threats))
score_threats_selected_example =
    score_threats_selected plain (some inner) (gate ∷ []) none (some 1) threats

score_threats_order_example :
    score_threats plain (threat 5 ∷ threat 6 ∷ []) (some inner) (gate ∷ []) none (some 1)
    ≡ score_threats plain (threat 6 ∷ threat 5 ∷ []) (some inner) (gate ∷ []) none (some 1)
score_threats_order_example =
    score_threats_order plain (some inner) (gate ∷ []) none (some 1) threat {is = 5 ∷ 6 ∷ []}
      {js = 6 ∷ 5 ∷ []} (λ i. refl) (Permᴰ.swap refl refl)

split_into_batches_lem_example :
    (flatten (split_into_batches (3 ∷ 4 ∷ [])) ≡ 3 ∷ 4 ∷ [])
    × All (λ b. (1 ≤ length b) × (length b ≤ 1000)) (split_into_batches (3 ∷ 4 ∷ []))
split_into_batches_lem_example = split_into_batches_lem (3 ∷ 4 ∷ [])

find_abandoned_sessions_lem_example :
    let out = find_abandoned_sessions settings 500 (1 ∷ []) board_db in
    All (Abandoned settings 500 (1 ∷ []) board_db) out
    × All
        (λ r. Abandoned settings 500 (1 ∷ []) board_db r → any (is_session r.session_id) out ≡ true)
        board_db.sessions
find_abandoned_sessions_lem_example = find_abandoned_sessions_lem settings 500 (1 ∷ []) board_db
