-- ===== src/Startup/Active.antt =====
-- What a passed start-up check of app/db/invariants.py says of the tables.
use tsg.Base.Tests.{HasEq}
use tsg.Base.{
  ℕ, ◌≡◌, ◌≤◌, ◌↔◌, refl, sym, subst, ◌∙◌, Bool, true, false, not, ◌&&◌, List, [], ◌∷◌, map, arith,
  ◌==◌, nat_eq, string_eq, pair_eq, distinct, contains, select_where, count_where, ltb, inl, inr,
  Bool-cases,
}
use tsg.Startup.{duplicate_groups}

-- No group has two rows.
abbrev pub UniqueActive {ℓ} : {A : Type ℓ} → (A → ℕ × ℕ) → (A → Bool) → List A → Type 0
UniqueActive cols superseded rows =
    (k : ℕ × ℕ) → count_where (λ r. not (superseded r) && cols r == k) rows ≤ 1

module _ {ℓ} {A : Type ℓ} ⦃e : HasEq A⦄ where
  contains-distinct : (xs : List A) (a : A) → contains (distinct xs) a ≡ contains xs a
  contains-distinct [] a = refl
  contains-distinct (x ∷ xs) a = elim (Bool-cases (contains (distinct xs) x)) [
    | inr new ↦ ground (arith, new, contains-distinct xs a)
    | inl old ↦ elim (Bool-cases (x == a)) [
      | inr other ↦ ground (arith, old, other, contains-distinct xs a)
      | inl same ↦
          let here : contains (distinct xs) a ≡ true =
            subst (λ y. contains (distinct xs) y ≡ true) ((e.eqb_iff x a).0 same) old in
          ground (arith, old, same, here, contains-distinct xs a)
    ]
  ]

  contains-count : (xs : List A) (a : A) → 1 ≤ count_where (λ x. x == a) xs → contains xs a ≡ true
  contains-count [] a h = absurd (ground (arith, h))
  contains-count (x ∷ xs) a h = ground (arith, h, contains-count xs a)

  count_where-contains :
      (p : A → Bool) (xs : List A) (a : A)
      → contains xs a ≡ true
      → p a ≡ true
      → 1 ≤ count_where p xs
  count_where-contains p [] a h k = absurd (ground (arith, h))
  count_where-contains p (x ∷ xs) a h k = elim (Bool-cases (x == a)) [
    | inl same ↦
        let here : p x ≡ true = subst (λ y. p y ≡ true) (sym ((e.eqb_iff x a).0 same)) k in
        ground (arith, here)
    | inr other ↦ ground (arith, h, other, count_where-contains p xs a)
  ]

module _ {ℓ} {A : Type ℓ} where
  count_where-never :
      (p : A → Bool) → ((a : A) → p a ≡ false) → (xs : List A) → count_where p xs ≡ 0
  count_where-never p h [] = refl
  count_where-never p h (x ∷ xs) = ground (arith, h x, count_where-never p h xs)

module _ {ℓ} {A : Type ℓ} (cols : A → ℕ × ℕ) (superseded : A → Bool) where
  unfoldable keys : List A → List (ℕ × ℕ)
  keys rows = map cols (select_where (λ r. not (superseded r)) rows)

  count_keys :
      (k : ℕ × ℕ) (rows : List A)
      → count_where (λ k'. k' == k) (keys rows)
        ≡ count_where (λ r. not (superseded r) && cols r == k) rows
  unfolding keys
  count_keys k [] = refl
  count_keys k (r ∷ rows) = ground (arith, count_keys k rows)

  pub duplicate_groups_lem :
      (rows : List A)
      → (duplicate_groups cols superseded rows ≡ 0) ↔ UniqueActive cols superseded rows
  unfolding duplicate_groups keys
  duplicate_groups_lem rows = (
    (λ none k. elim (Bool-cases (ltb 1 (count_where (λ k'. k' == k) (keys rows)))) [
      | inr few ↦ ground (arith, few, count_keys k rows)
      | inl many ↦
          let listed = contains-count (keys rows) k (ground (arith, many)) in
          let found =
            count_where-contains (λ l. ltb 1 (count_where (λ k'. k' == l) (keys rows)))
              (distinct (keys rows)) k (contains-distinct (keys rows) k ∙ listed) many in
          absurd (ground (arith, found, none))
    ]),
    λ u.
        count_where-never (λ k. ltb 1 (count_where (λ k'. k' == k) (keys rows)))
          (λ k. ground (arith, u k, count_keys k rows)) (distinct (keys rows)),
  )
