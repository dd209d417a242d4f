-- ===== src/Pipeline/Scoping/Cutoff.antt =====
-- The selection: how many rows are selected, and that a failed gate or a low score excludes a threat.
use tsg.Base.{
  ℕ, suc, ◌-◌, ◌≡◌, refl, ◌∙◌, min, Bool, false, not, ◌&&◌, Option, none, some, List, [], ◌∷◌, map,
  arith, all, All, count_where, ◌==◌,
}
use tsg.Base.Number.{ℤ}
use tsg.Enums.{ThreatRuleType, rule_type_eq}
use tsg.Models.{Subsystem, ThreatRuleRow}
use tsg.Dal.Outputs.{Threat}
use tsg.Python.{Builtins}
use tsg.Pipeline.Scoping.{
  Evaluated, Verdict, no_rules, insert_by_rank, sort_by_rank, cut, apply_top, below_cutoff,
  apply_threshold, evaluate, score_threats, reading, matches, apply_rule, run_rules, rules_of,
  apply_rules,
}

-- A row that the threshold lets through.
abbrev pub is_eligible : Option ℤ → Evaluated → Bool
is_eligible threshold e = e.selected && not (below_cutoff threshold e.score)

cut_count :
    (threshold : Option ℤ) (n kept rank : ℕ) (es : List Evaluated)
    → count_where (λ x. x.selected) (cut threshold (some n) kept rank es)
      ≡ min (n - kept) (count_where (is_eligible threshold) es)
unfolding cut
cut_count threshold n kept rank [] = omega arith
cut_count threshold n kept rank (e ∷ es) = ground (
  arith,
  cut_count threshold n kept (suc rank) es,
  cut_count threshold n (suc kept) (suc rank) es,
)

cut_count_all :
    (threshold : Option ℤ) (kept rank : ℕ) (es : List Evaluated)
    → count_where (λ x. x.selected) (cut threshold none kept rank es)
      ≡ count_where (is_eligible threshold) es
unfolding cut
cut_count_all threshold kept rank [] = refl
cut_count_all threshold kept rank (e ∷ es) =
    ground (arith, cut_count_all threshold kept (suc rank) es)

count_insert :
    (p : Evaluated → Bool) (e : Evaluated) (l : List Evaluated)
    → count_where p (insert_by_rank e l) ≡ count_where p (e ∷ l)
unfolding insert_by_rank
count_insert p e [] = refl
count_insert p e (x ∷ xs) = ground (arith, count_insert p e xs)

count_sort :
    (p : Evaluated → Bool) (l : List Evaluated) → count_where p (sort_by_rank l) ≡ count_where p l
unfolding sort_by_rank
count_sort p [] = refl
count_sort p (e ∷ es) = ground (arith, count_sort p es, count_insert p e (sort_by_rank es))

module _ (P : Evaluated → Type 0) where
  All-insert : (e : Evaluated) (l : List Evaluated) → P e → All P l → All P (insert_by_rank e l)
  unfolding insert_by_rank
  All-insert e [] h hs = (h, tt)
  All-insert e (x ∷ xs) h hs = ground (arith, All-insert e xs h hs.1)

  All-sort : (l : List Evaluated) → All P l → All P (sort_by_rank l)
  unfolding sort_by_rank
  All-sort [] h = tt
  All-sort (e ∷ es) h = All-insert e (sort_by_rank es) h.0 (All-sort es h.1)

-- Neither cutoff selects a row, and a selected row is not below the threshold.
cut-All :
    (threshold : Option ℤ) (top : Option ℕ) (kept rank i : ℕ) (es : List Evaluated)
    → All (λ e. e.threat_id ≡ i → e.selected ≡ false) es
    → All (λ x. x.threat_id ≡ i → x.selected ≡ false) (cut threshold top kept rank es)
unfolding cut
cut-All threshold top kept rank i [] h = tt
cut-All threshold top kept rank i (e ∷ es) h = (
  λ k. ground (arith, h.0, k),
  cut-All threshold top (apply_top top kept rank (apply_threshold threshold e)).0 (suc rank) i es
      h.1,
)

module _ (py : Builtins) (sub : Option Subsystem) where
  -- A gate that is read and not met.
  abbrev pub gate_fails : ThreatRuleRow → Bool
  gate_fails r = elim (reading py sub r) [
    | none ↦ false
    | some (value, expected) ↦
        r.rule_type == ThreatRuleType.tech_gate && not (matches py value expected)
  ]

  apply_rule_selected :
      (r : ThreatRuleRow) (v : Verdict)
      → (apply_rule py sub r v).selected ≡ (v.selected && not (gate_fails r))
  unfolding apply_rule
  apply_rule_selected r v = ground arith

  run_rules_selected :
      (rs : List ThreatRuleRow) (v : Verdict)
      → (run_rules py sub rs v).selected ≡ (v.selected && all (λ r. not (gate_fails r)) rs)
  unfolding run_rules
  run_rules_selected [] v = ground arith
  run_rules_selected (r ∷ rs) v =
      run_rules_selected rs (apply_rule py sub r v) ∙ ground (arith, apply_rule_selected r v)

  -- The gates of the rules that apply to a threat all pass.
  abbrev pub gates_pass : List ThreatRuleRow → Threat → Bool
  gates_pass rules t = all (λ r. not (gate_fails r)) (rules_of t.threat_type_id rules)

  evaluate_selected :
      (rules : List ThreatRuleRow) (t : Threat)
      → (evaluate py sub rules t).selected ≡ gates_pass rules t
  unfolding evaluate apply_rules
  evaluate_selected rules t = run_rules_selected (rules_of t.threat_type_id rules) no_rules

  gates_exclude :
      (rules : List ThreatRuleRow) (i : ℕ) (ts : List Threat)
      → All (λ t. t.threat_id ≡ i → gates_pass rules t ≡ false) ts
      → All (λ e. e.threat_id ≡ i → e.selected ≡ false) (map (evaluate py sub rules) ts)
  gates_exclude rules i [] h = tt
  gates_exclude rules i (t ∷ ts) h =
      (λ e. evaluate_selected rules t ∙ h.0 (unfold evaluate in e), gates_exclude rules i ts h.1)

-- A threat with a failed gate is never selected, whatever it scores and whatever the cutoffs are.
pub tech_gate_excludes :
    (py : Builtins) (sub : Option Subsystem) (rules : List ThreatRuleRow) (threshold : Option ℤ)
    (top : Option ℕ) (i : ℕ) (ts : List Threat)
    → All (λ t. t.threat_id ≡ i → gates_pass py sub rules t ≡ false) ts
    → All (λ x. x.threat_id ≡ i → x.selected ≡ false) (score_threats py ts sub rules threshold top)
unfolding score_threats
tech_gate_excludes py sub rules threshold top i ts h =
    let es = map (evaluate py sub rules) ts in
    cut-All threshold top 0 1 i (sort_by_rank es)
      (All-sort (λ e. e.threat_id ≡ i → e.selected ≡ false) es (gates_exclude py sub rules i ts h))

-- The number that a cutoff at `top` lets through of `n`.
abbrev pub capped : Option ℕ → ℕ → ℕ
capped none n = n
capped (some k) n = min k n

-- As many rows are selected as there are threats that pass their gates and reach the threshold, or
-- `top_n` of them where that is fewer.
pub score_threats_selected :
    (py : Builtins) (sub : Option Subsystem) (rules : List ThreatRuleRow) (threshold : Option ℤ)
    (top : Option ℕ) (ts : List Threat)
    → count_where (λ x. x.selected) (score_threats py ts sub rules threshold top)
      ≡ capped top (count_where (is_eligible threshold) (map (evaluate py sub rules) ts))
unfolding score_threats
score_threats_selected py sub rules threshold none ts =
    let es = map (evaluate py sub rules) ts in
    cut_count_all threshold 0 1 (sort_by_rank es) ∙ count_sort (is_eligible threshold) es
score_threats_selected py sub rules threshold (some n) ts =
    let es = map (evaluate py sub rules) ts in
    cut_count threshold n 0 1 (sort_by_rank es)
    ∙ omega (arith, count_sort (is_eligible threshold) es)
