-- ===== src/Pipeline/Scoping.antt =====
-- app/pipeline/scoping.py: which threats get a scenario, and in what order. Scores and weights are
-- whole numbers, and the text conversions are the parameter `py`.
pub mod Order
pub mod Cutoff
use tsg.Base.{
  ℕ, suc, ◌+◌, String, Bool, true, false, not, ◌&&◌, ◌||◌, Option, none, some, List, [], ◌∷◌, ◌++◌,
  map, ltb, leb, ◌==◌, if◌then◌else◌, string_eq, nat_eq, is_some_of, select_where,
}
use tsg.Base.Number.{ℤ, pos, negsuc, ◌+ℤ◌, ltb_ℤ, eqb_ℤ}
use tsg.Enums.{GroundingStatus, ThreatRuleType, rule_type_eq}
use tsg.Json.{Json, Items, Fields, get, truthy}
use tsg.Python.{Builtins}
use tsg.Models.{Subsystem, ThreatRuleRow, Factor, Reason}
use tsg.Dal.Outputs.{Threat}

pub record Scored : Type 0 where
  pub threat_id : ℕ
  pub score : ℤ
  pub rank : ℕ
  pub selected : Bool
  pub reason : Reason
  pub factors : List Factor

abbrev pub base_score : ℤ
base_score = pos 50

abbrev pub confidence_weight : GroundingStatus → ℤ
confidence_weight GroundingStatus.grounded = pos 20
confidence_weight GroundingStatus.confirm = pos 10
confidence_weight GroundingStatus.flagged = pos 0

abbrev pub default_rule_weight : ℤ
default_rule_weight = pos 10

-- `_RULE_KEY_FIELDS`: the field that a rule key reads, and the value it expects by default.
abbrev pub rule_key_fields : String → Option (String × Option String)
rule_key_fields key =
    if key == "internet_facing"
    then some ("exposure_level", some "internet-facing")
    else if key == "exposure_level"
    then some ("exposure_level", none)
    else if key == "criticality"
    then some ("criticality", none)
    else if key == "subsystem_name"
    then some ("name", none)
    else none

-- What the rules say of one threat.
pub record Verdict : Type 0 where
  pub delta : ℤ
  pub selected : Bool
  pub gate_failures : List String
  pub factors : List Factor

abbrev pub no_rules : Verdict
no_rules = record { delta = pos 0; selected = true; gate_failures = []; factors = [] }

pub record Evaluated : Type 0 where
  pub threat_id : ℕ
  pub score : ℤ
  pub selected : Bool
  pub reason : Reason
  pub factors : List Factor

-- The sort key: score descending, then id ascending. A tie keeps the order.
unfoldable pub precedes : Evaluated → Evaluated → Bool
precedes a b = ltb_ℤ b.score a.score || (eqb_ℤ a.score b.score && leb a.threat_id b.threat_id)

unfoldable pub insert_by_rank : Evaluated → List Evaluated → List Evaluated
insert_by_rank e [] = e ∷ []
insert_by_rank e (x ∷ xs) = if precedes e x then e ∷ x ∷ xs else x ∷ insert_by_rank e xs

unfoldable pub sort_by_rank : List Evaluated → List Evaluated
sort_by_rank [] = []
sort_by_rank (e ∷ es) = insert_by_rank e (sort_by_rank es)

-- The two cutoffs on one row, with the number kept so far.
abbrev below_cutoff : Option ℤ → ℤ → Bool
below_cutoff none score = false
below_cutoff (some t) score = ltb_ℤ score t

abbrev pub scored_of : ℕ → Evaluated → Bool → Reason → Scored
scored_of rank e selected reason = record {
  threat_id = e.threat_id;
  score = e.score;
  rank = rank;
  selected = selected;
  reason = reason;
  factors = e.factors;
}

abbrev threshold_of : Option ℤ → ℤ
threshold_of none = pos 0
threshold_of (some t) = t

-- `if selected and score_threshold is not None and score < score_threshold`
abbrev pub apply_threshold : Option ℤ → Evaluated → Evaluated
apply_threshold threshold e =
    if e.selected && below_cutoff threshold e.score
    then record e { selected = false; reason = Reason.below_threshold (threshold_of threshold) }
    else e

-- `if selected and top_n is not None: kept += 1; if kept > top_n: ...`
abbrev pub apply_top : Option ℕ → ℕ → ℕ → Evaluated → ℕ × Scored
apply_top none kept rank e = (kept, scored_of rank e e.selected e.reason)
apply_top (some n) kept rank e =
    if e.selected
    then if ltb n (suc kept)
      then (suc kept, scored_of rank e false (Reason.beyond_top n))
      else (suc kept, scored_of rank e true e.reason)
    else (kept, scored_of rank e e.selected e.reason)

unfoldable pub cut : Option ℤ → Option ℕ → ℕ → ℕ → List Evaluated → List Scored
cut threshold top kept rank [] = []
cut threshold top kept rank (e ∷ es) =
    let (kept', row) = apply_top top kept rank (apply_threshold threshold e) in
    row ∷ cut threshold top kept' (suc rank) es

-- `rules_by_type.get(threat["threat_type_id"], [])`
abbrev pub rules_of : Option ℕ → List ThreatRuleRow → List ThreatRuleRow
rules_of type_id = select_where (λ r. is_some_of type_id r.threat_type_id)

module _ (py : Builtins) where
  open py use {float_of, str_of, folded}

  -- `_rule_weight`: `none` means that the rule is skipped.
  abbrev json_weight : Option Json → Option ℤ
  json_weight none = some default_rule_weight
  json_weight (some Json.null) = some default_rule_weight
  json_weight (some (Json.bool b)) = none
  json_weight (some (Json.num n)) = some n
  json_weight (some (Json.str t)) = float_of t
  json_weight (some (Json.arr xs)) = none
  json_weight (some (Json.obj fs)) = none

  abbrev metadata_weight : Json → Option ℤ
  metadata_weight (Json.obj fs) = json_weight (get fs "weight")
  metadata_weight _ = none

  unfoldable pub rule_weight : ThreatRuleRow → Option ℤ
  rule_weight r = elim r.metadata [
    | none ↦ some default_rule_weight
    | some none ↦ none
    | some (some j) ↦ metadata_weight j
  ]

  -- `float(value)`, for a value that is not a bool.
  abbrev number_of : Json → Option ℤ
  number_of (Json.num n) = some n
  number_of (Json.str t) = float_of t
  number_of _ = none

  abbrev same_text : Json → String → Bool
  same_text value expected = folded (str_of value) == folded expected

  abbrev same_number : Json → String → Option Bool
  same_number value expected = elim (number_of value) [
    | none ↦ none
    | some n ↦ elim (float_of expected) [ none ↦ none | some k ↦ some (eqb_ℤ n k) ]
  ]

  unfoldable pub matches : Json → Option String → Bool
  matches value none = truthy value
  matches (Json.bool b) (some expected) = same_text (Json.bool b) expected
  matches value (some expected) = elim (same_number value expected) [
    | none ↦ same_text value expected
    | some b ↦ b
  ]

  -- The expected value: the rule's own, unless it is NULL.
  abbrev expected_of : ThreatRuleRow → Option String → Option String
  expected_of r default = elim r.rule_value [ none ↦ default | some v ↦ some v ]

  -- The value that a rule reads; `none` for an unknown key, no subsystem or an absent field.
  abbrev pub reading : Option Subsystem → ThreatRuleRow → Option (Json × Option String)
  reading sub r = elim (rule_key_fields r.rule_key) [
    | none ↦ none
    | some (name, default) ↦ elim sub [
      | none ↦ none
      | some s ↦ elim (get s.fields name) [
        | none ↦ none
        | some value ↦ some (value, expected_of r default)
      ]
    ]
  ]

  abbrev factor : ThreatRuleRow → ℤ → Option Bool → Factor
  factor r delta gate = record {
    key = r.rule_key;
    family = r.rule_type;
    delta = delta;
    gate = gate;
  }

  -- A `tech_gate` rule that has been read.
  abbrev gate_rule : ThreatRuleRow → Bool → Verdict → Verdict
  gate_rule r matched v = record {
    delta = v.delta;
    selected = v.selected && matched;
    gate_failures = if matched then v.gate_failures else v.gate_failures ++ r.rule_key ∷ [];
    factors = v.factors ++ factor r (pos 0) (some matched) ∷ [];
  }

  -- A relevance rule that has been read.
  abbrev weigh_rule : ThreatRuleRow → Bool → Verdict → Verdict
  weigh_rule r false v = v
  weigh_rule r true v = elim (rule_weight r) [
    | none ↦ v
    | some weight ↦ record v {
      delta = v.delta +ℤ weight;
      factors = v.factors ++ factor r weight none ∷ [];
    }
  ]

  abbrev fire : ThreatRuleRow → ThreatRuleType → Bool → Verdict → Verdict
  fire r ThreatRuleType.tech_gate matched v = gate_rule r matched v
  fire r ThreatRuleType.relevance_flag matched v = weigh_rule r matched v
  fire r ThreatRuleType.relevance_context_value matched v = weigh_rule r matched v
  fire r ThreatRuleType.other matched v = v

  -- One round of the loop of `_apply_rules`.
  unfoldable pub apply_rule : Option Subsystem → ThreatRuleRow → Verdict → Verdict
  apply_rule sub r v = elim (reading sub r) [
    | none ↦ v
    | some (value, expected) ↦ fire r r.rule_type (matches value expected) v
  ]

  unfoldable pub run_rules : Option Subsystem → List ThreatRuleRow → Verdict → Verdict
  run_rules sub [] v = v
  run_rules sub (r ∷ rs) v = run_rules sub rs (apply_rule sub r v)

  unfoldable pub apply_rules : Threat → Option Subsystem → List ThreatRuleRow → Verdict
  apply_rules t sub rules = run_rules sub (rules_of t.threat_type_id rules) no_rules

  abbrev reason_of : GroundingStatus → List String → Reason
  reason_of g [] = Reason.grounding g
  reason_of g (x ∷ xs) = Reason.gates_failed (x ∷ xs)

  unfoldable pub evaluate : Option Subsystem → List ThreatRuleRow → Threat → Evaluated
  evaluate sub rules t =
      let v = apply_rules t sub rules in
      record {
        threat_id = t.threat_id;
        score = base_score +ℤ confidence_weight t.grounding_status +ℤ v.delta;
        selected = v.selected;
        reason = reason_of t.grounding_status v.gate_failures;
        factors = v.factors;
      }

  unfoldable pub score_threats :
      List Threat → Option Subsystem → List ThreatRuleRow → Option ℤ → Option ℕ → List Scored
  score_threats threats sub rules threshold top =
      cut threshold top 0 1 (sort_by_rank (map (evaluate sub rules) threats))
