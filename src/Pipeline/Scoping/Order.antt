-- ===== src/Pipeline/Scoping/Order.antt =====
-- The ranking: every threat is ranked exactly once, by score and then by id, and the result does not
-- depend on the order in which the threats are given.
use mathlib.Core.List.{Perm, Permᴰ}
use mathlib.Core.List.Perm
use native.Mathlib.Decide.{ℕ_discrete}
use tsg.Base.{
  ℕ, suc, ◌≤◌, ◌≡◌, ◌≢◌, refl, ◌∙◌, ap, inl, inr, true, false, Option, List, [], ◌∷◌, map, arith,
  Bool-cases,
}
use tsg.Base.Number.{ℤ, ◌≤ℤ◌}
use tsg.Models.{Subsystem, ThreatRuleRow}
use tsg.Dal.Outputs.{Threat}
use tsg.Python.{Builtins}
use tsg.Pipeline.Scoping.{
  Scored, Evaluated, precedes, insert_by_rank, sort_by_rank, cut, apply_top, apply_threshold,
  evaluate, score_threats,
}

precedes_total : (a b : Evaluated) → precedes a b ≡ false → precedes b a ≡ true
unfolding precedes
precedes_total a b h = ground arith

precedes_trans :
    (a b c : Evaluated) → precedes a b ≡ true → precedes b c ≡ true → precedes a c ≡ true
unfolding precedes
precedes_trans a b c h k = ground arith

precedes_antisymm :
    (a b : Evaluated) → precedes a b ≡ true → precedes b a ≡ true → a.threat_id ≡ b.threat_id
unfolding precedes
precedes_antisymm a b h k = ground arith

-- Two rows of different threats can be inserted in either order.
insert_swap :
    (a b : Evaluated) (l : List Evaluated)
    → a.threat_id ≢ b.threat_id
    → insert_by_rank a (insert_by_rank b l) ≡ insert_by_rank b (insert_by_rank a l)
unfolding insert_by_rank
insert_swap a b [] ne =
    ground (arith, precedes_total a b, precedes_antisymm a b, precedes_total b a)
insert_swap a b (x ∷ xs) ne = ground (
  arith,
  insert_swap a b xs ne,
  precedes_total a b,
  precedes_total b a,
  precedes_antisymm a b,
  precedes_trans a b x,
  precedes_trans b a x,
  precedes_total a x,
  precedes_total b x,
  precedes_trans a x b,
  precedes_trans b x a,
)

insert-perm : (e : Evaluated) (l : List Evaluated) → Perm (insert_by_rank e l) (e ∷ l)
unfolding insert_by_rank
insert-perm e [] = Perm.refl (e ∷ [])
insert-perm e (x ∷ xs) = elim (Bool-cases (precedes e x)) [
  | inl h ↦ rw h (Perm.refl (e ∷ x ∷ xs))
  | inr h ↦ rw h (Perm.trans (Perm.cons x (insert-perm e xs)) (Perm.swap e x xs))
]

sort-perm : (l : List Evaluated) → Perm (sort_by_rank l) l
unfolding sort_by_rank
sort-perm [] = Perm.refl []
sort-perm (e ∷ es) = Perm.trans (insert-perm e (sort_by_rank es)) (Perm.cons e (sort-perm es))

-- Sorted, by neighbours.
abbrev InOrder : List Evaluated → Type 0
InOrder [] = Unit
InOrder (a ∷ []) = Unit
InOrder (a ∷ b ∷ l) = (precedes a b ≡ true) × InOrder (b ∷ l)

insert-InOrder : (e : Evaluated) (l : List Evaluated) → InOrder l → InOrder (insert_by_rank e l)
unfolding insert_by_rank
insert-InOrder e [] h = tt
insert-InOrder e (x ∷ []) h = ground (arith, precedes_total e x)
insert-InOrder e (x ∷ y ∷ l) h =
    ground (arith, precedes_total e x, precedes_total e y, insert-InOrder e (y ∷ l))

sort-InOrder : (l : List Evaluated) → InOrder (sort_by_rank l)
unfolding sort_by_rank
sort-InOrder [] = tt
sort-InOrder (e ∷ es) = insert-InOrder e (sort_by_rank es) (sort-InOrder es)

-- The cutoffs change neither the threat nor its score, and give it the rank of its place.
module _ (threshold : Option ℤ) (top : Option ℕ) (kept rank : ℕ) (e : Evaluated) where
  abbrev row : Scored
  row = (apply_top top kept rank (apply_threshold threshold e)).1

  row_keeps : (row.threat_id ≡ e.threat_id) × (row.score ≡ e.score) × (row.rank ≡ rank)
  row_keeps = (ground arith, ground arith, ground arith)

-- `n`, `n + 1`, ..., one for each row.
abbrev pub ranks_from {ℓ} : {A : Type ℓ} → ℕ → List A → List ℕ
ranks_from n [] = []
ranks_from n (x ∷ xs) = n ∷ ranks_from (suc n) xs

cut_ids :
    (threshold : Option ℤ) (top : Option ℕ) (kept rank : ℕ) (es : List Evaluated)
    → map (λ x. x.threat_id) (cut threshold top kept rank es) ≡ map (λ x. x.threat_id) es
unfolding cut
cut_ids threshold top kept rank [] = refl
cut_ids threshold top kept rank (e ∷ es) = ground (
  arith,
  (row_keeps threshold top kept rank e).0,
  cut_ids threshold top (apply_top top kept rank (apply_threshold threshold e)).0 (suc rank) es,
)

cut_ranks :
    (threshold : Option ℤ) (top : Option ℕ) (kept rank : ℕ) (es : List Evaluated)
    → map (λ x. x.rank) (cut threshold top kept rank es)
      ≡ ranks_from rank (cut threshold top kept rank es)
unfolding cut
cut_ranks threshold top kept rank [] = refl
cut_ranks threshold top kept rank (e ∷ es) = ground (
  arith,
  (row_keeps threshold top kept rank e).2,
  cut_ranks threshold top (apply_top top kept rank (apply_threshold threshold e)).0 (suc rank) es,
)

-- Scores never rise down the list, and equal scores are in the order of their ids.
abbrev pub Follows : Scored → Scored → Type 0
Follows a b = (b.score ≤ℤ a.score) × (a.score ≡ b.score → a.threat_id ≤ b.threat_id)

abbrev pub Ranked : List Scored → Type 0
Ranked [] = Unit
Ranked (a ∷ []) = Unit
Ranked (a ∷ b ∷ l) = Follows a b × Ranked (b ∷ l)

precedes-Follows :
    (a b : Evaluated) (x y : Scored)
    → precedes a b ≡ true
    → (x.threat_id ≡ a.threat_id) × (x.score ≡ a.score)
    → (y.threat_id ≡ b.threat_id) × (y.score ≡ b.score)
    → Follows x y
unfolding precedes
precedes-Follows a b x y h p q = rw (p.1, q.1, p.0, q.0) (ground arith, λ e. ground arith)

cut-Ranked :
    (threshold : Option ℤ) (top : Option ℕ) (kept rank : ℕ) (es : List Evaluated)
    → InOrder es
    → Ranked (cut threshold top kept rank es)
unfolding cut
cut-Ranked threshold top kept rank [] h = tt
cut-Ranked threshold top kept rank (a ∷ []) h = tt
cut-Ranked threshold top kept rank (a ∷ b ∷ l) h =
    let kept' = (apply_top top kept rank (apply_threshold threshold a)).0 in
    let ka = row_keeps threshold top kept rank a in
    let kb = row_keeps threshold top kept' (suc rank) b in
    (
      precedes-Follows a b (row threshold top kept rank a) (row threshold top kept' (suc rank) b)
          h.0 (ka.0, ka.1) (kb.0, kb.1),
      cut-Ranked threshold top kept' (suc rank) (b ∷ l) h.1,
    )

module _ (py : Builtins) (sub : Option Subsystem) (rules : List ThreatRuleRow)
    (threshold : Option ℤ) (top : Option ℕ) where
  evaluated_ids :
      (threats : List Threat)
      → map (λ x. x.threat_id) (map (evaluate py sub rules) threats)
        ≡ map (λ t. t.threat_id) threats
  unfolding evaluate
  evaluated_ids [] = refl
  evaluated_ids (t ∷ ts) = ap (◌∷◌ t.threat_id) (evaluated_ids ts)

  -- Every threat is scored exactly once, the ranks are 1, 2, ..., and the rows are in the order of the
  -- scores, ties in the order of the ids.
  pub score_threats-Ranked :
      (threats : List Threat)
      → let out = score_threats py threats sub rules threshold top in
        Perm (map (λ x. x.threat_id) out) (map (λ t. t.threat_id) threats)
        × (map (λ x. x.rank) out ≡ ranks_from 1 out)
        × Ranked out
  unfolding score_threats
  score_threats-Ranked threats =
      let es = map (evaluate py sub rules) threats in
      (
        rw (cut_ids threshold top 0 1 (sort_by_rank es), ← evaluated_ids threats)
            (Perm.map (λ x. x.threat_id) (sort-perm es)),
        cut_ranks threshold top 0 1 (sort_by_rank es),
        cut-Ranked threshold top 0 1 (sort_by_rank es) (sort-InOrder es),
      )

module _ (py : Builtins) (sub : Option Subsystem) (rules : List ThreatRuleRow)
    (threat_at : ℕ → Threat) (keyed : (i : ℕ) → (threat_at i).threat_id ≡ i) where
  row_at : ℕ → Evaluated
  row_at i = evaluate py sub rules (threat_at i)

  row_at_id : (i : ℕ) → (row_at i).threat_id ≡ i
  unfolding row_at evaluate
  row_at_id i = keyed i

  swap_rows :
      (i j : ℕ) (l : List Evaluated)
      → insert_by_rank (row_at i) (insert_by_rank (row_at j) l)
        ≡ insert_by_rank (row_at j) (insert_by_rank (row_at i) l)
  swap_rows i j l = elim (ℕ_discrete i j) [
    | yes e ↦ rw e
    | no ne ↦ insert_swap (row_at i) (row_at j) l (λ e. ne (rw (row_at_id i, row_at_id j) at e))
  ]

  sorted_perm :
      {is js : List ℕ} → Permᴰ is js → sort_by_rank (map row_at is) ≡ sort_by_rank (map row_at js)
  unfolding sort_by_rank
  sorted_perm Permᴰ.nil = refl
  sorted_perm (Permᴰ.cons e d) = rw (e, sorted_perm d)
  sorted_perm (Permᴰ.swap {a} {b} {l = l} e f) =
      rw (← e, ← f) (swap_rows a b (sort_by_rank (map row_at l)))
  sorted_perm (Permᴰ.trans d d') = sorted_perm d ∙ sorted_perm d'

map-map' {ℓ κ μ} :
    {A : Type ℓ} {B : Type κ} {C : Type μ} (f : A → B) (g : B → C) (xs : List A)
    → map g (map f xs) ≡ map (λ x. g (f x)) xs
map-map' f g [] = refl
map-map' f g (x ∷ xs) = ap (◌∷◌ (g (f x))) (map-map' f g xs)

-- The result does not depend on the order of the threats: for threats with distinct ids, given as a
-- table from ids, any rearrangement of the ids gives the same rows.
pub score_threats_order :
    (py : Builtins) (sub : Option Subsystem) (rules : List ThreatRuleRow) (threshold : Option ℤ)
    (top : Option ℕ) (threat_at : ℕ → Threat) {is js : List ℕ}
    → ((i : ℕ) → (threat_at i).threat_id ≡ i)
    → Permᴰ is js
    → score_threats py (map threat_at is) sub rules threshold top
      ≡ score_threats py (map threat_at js) sub rules threshold top
unfolding score_threats row_at
score_threats_order py sub rules threshold top threat_at {is} {js} keyed d =
    rw
      (map-map' threat_at (evaluate py sub rules) is, map-map' threat_at (evaluate py sub rules) js)
      (ap (cut threshold top 0 1) (sorted_perm py sub rules threat_at keyed d))
