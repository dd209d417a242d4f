-- ===== src/Base/Table.antt =====
-- Tables as lists of rows, and the statements that the data layer runs on them: SELECT ... WHERE,
-- UPDATE ... WHERE with its row count, and the compare-and-set built from the two.
use Prim.Native.Nat.{ℕ, suc, ◌≤◌}
use mathlib.Core.Path.{◌≡◌, refl}
use mathlib.Core.Bool.{Bool, true, false, ◌&&◌, ◌||◌}
use mathlib.Core.Option.{Option, none, some}
use mathlib.Core.List.{List, [], ◌∷◌}
use native.Mathlib.Omega.{arith}
use tsg.Base.Tests.{nat_beq, if◌then◌else◌}
use tsg.Base.Lists.{All, any, length}

module _ {ℓ} {A : Type ℓ} where
  -- SELECT ... WHERE p
  abbrev pub select_where : (A → Bool) → List A → List A
  select_where p [] = []
  select_where p (x ∷ xs) = if p x then x ∷ select_where p xs else select_where p xs

  -- The first row of such a selection.
  abbrev pub find_where : (A → Bool) → List A → Option A
  find_where p [] = none
  find_where p (x ∷ xs) = if p x then some x else find_where p xs

  -- SELECT COUNT(*) ... WHERE p
  abbrev pub count_where : (A → Bool) → List A → ℕ
  count_where p [] = 0
  count_where p (x ∷ xs) = if p x then suc (count_where p xs) else count_where p xs

  -- UPDATE ... WHERE p
  abbrev pub update_where : (A → Bool) → (A → A) → List A → List A
  update_where p f [] = []
  update_where p f (x ∷ xs) = (if p x then f x else x) ∷ update_where p f xs

  -- An UPDATE whose caller asks whether it hit exactly one row (`res.rowcount == 1`).
  abbrev pub cas_where : (A → Bool) → (A → A) → List A → Bool × List A
  cas_where p f xs = (nat_beq (count_where p xs) 1, update_where p f xs)

  pub length-update_where :
      (p : A → Bool) (f : A → A) (xs : List A) → length (update_where p f xs) ≡ length xs
  length-update_where p f [] = refl
  length-update_where p f (x ∷ xs) = ground (arith, length-update_where p f xs)

  pub All-update_where {κ} :
      {P : A → Type κ} (p : A → Bool) (f : A → A)
      → ((x : A) → p x ≡ true → P x → P (f x))
      → (xs : List A) → All P xs
      → All P (update_where p f xs)
  All-update_where {P} p f keep [] h = tt
  All-update_where {P} p f keep (x ∷ xs) h = (pick (p x) (keep x), All-update_where p f keep xs h.1)
    where
      pick : (b : Bool) → (b ≡ true → P x → P (f x)) → P (if b then f x else x)
      pick true k = k refl h.0
      pick false k = h.0

  -- A statement that hits no row changes nothing.
  pub update_where_none :
      (p : A → Bool) (f : A → A) (xs : List A) → count_where p xs ≡ 0 → update_where p f xs ≡ xs
  update_where_none p f [] h = refl
  update_where_none p f (x ∷ xs) h = ground (arith, update_where_none p f xs)

  pub count_where-le :
      (p q : A → Bool)
      → ((x : A) → p x ≡ true → q x ≡ true)
      → (xs : List A) → count_where p xs ≤ count_where q xs
  count_where-le p q h [] = omega arith
  count_where-le p q h (x ∷ xs) = ground (arith, count_where-le p q h xs, h x)

  -- An update that leaves the test `k` of each row alone leaves its count alone.
  pub count_where-update_where :
      (k p : A → Bool) (f : A → A)
      → ((x : A) → k (f x) ≡ k x)
      → (xs : List A) → count_where k (update_where p f xs) ≡ count_where k xs
  count_where-update_where k p f h [] = refl
  count_where-update_where k p f h (x ∷ xs) =
      ground (arith, count_where-update_where k p f h xs, h x)

  -- So the row that `k` finds is found again, updated if `p` holds of it.
  pub find_where-update_where :
      (k p : A → Bool) (f : A → A)
      → ((x : A) → k (f x) ≡ k x)
      → (xs : List A)
      → find_where k (update_where p f xs)
        ≡ elim (find_where k xs) [ none ↦ none | some x ↦ some (if p x then f x else x) ]
  find_where-update_where k p f h [] = refl
  find_where-update_where k p f h (x ∷ xs) = ground (arith, find_where-update_where k p f h xs, h x)

  -- Where `k` is a key, a test that includes the key hits the keyed row or none.
  pub count_where_keyed :
      (k p : A → Bool)
      → ((x : A) → p x ≡ true → k x ≡ true)
      → (xs : List A) → count_where k xs ≤ 1
      → count_where p xs ≡ elim (find_where k xs) [ none ↦ 0 | some x ↦ (if p x then 1 else 0) ]
  count_where_keyed k p h [] u = refl
  count_where_keyed k p h (x ∷ xs) u =
      ground (arith, count_where_keyed k p h xs, h x, count_where-le p k h xs)

  pub find_where_sat : (k : A → Bool) (xs : List A) {x : A} → find_where k xs ≡ some x → k x ≡ true
  find_where_sat k [] h = cc
  find_where_sat k (y ∷ xs) {x} h = ground (arith, find_where_sat k xs {x = x})

  -- A row that the statement does not touch is found unchanged.
  pub find_where-update_where_ne :
      (k p : A → Bool) (f : A → A)
      → ((x : A) → k (f x) ≡ k x)
      → ((x : A) → k x ≡ true → p x ≡ false)
      → (xs : List A) → find_where k (update_where p f xs) ≡ find_where k xs
  find_where-update_where_ne k p f h ne [] = refl
  find_where-update_where_ne k p f h ne (x ∷ xs) =
      ground (arith, find_where-update_where_ne k p f h ne xs, h x, ne x)

  -- After an update that falsifies its own test the same statement hits nothing.
  pub count_where_spent :
      (p : A → Bool) (f : A → A)
      → ((x : A) → p x ≡ true → p (f x) ≡ false)
      → (xs : List A) → count_where p (update_where p f xs) ≡ 0
  count_where_spent p f h [] = refl
  count_where_spent p f h (x ∷ xs) = ground (arith, count_where_spent p f h xs, h x)

  -- Of an update whose rows fail the test afterwards, where the other rows fail it already.
  pub any-update_where_none :
      (q p : A → Bool) (f : A → A)
      → ((x : A) → q (if p x then f x else x) ≡ false)
      → (xs : List A) → any q (update_where p f xs) ≡ false
  any-update_where_none q p f h [] = refl
  any-update_where_none q p f h (x ∷ xs) = ground (arith, any-update_where_none q p f h xs, h x)

  pub any-update_where :
      (q p : A → Bool) (f : A → A)
      → ((x : A) → q (if p x then f x else x) ≡ q x)
      → (xs : List A) → any q (update_where p f xs) ≡ any q xs
  any-update_where q p f h [] = refl
  any-update_where q p f h (x ∷ xs) = ground (arith, any-update_where q p f h xs, h x)

  -- `any` against the selections.
  pub count_where-any : (p : A → Bool) (xs : List A) → any p xs ≡ false → count_where p xs ≡ 0
  count_where-any p [] h = refl
  count_where-any p (x ∷ xs) h = ground (arith, h, count_where-any p xs)

  pub find_where-any :
      (p : A → Bool) (xs : List A) → any p xs ≡ true → (x : A) × (find_where p xs ≡ some x)
  find_where-any p [] h = absurd (ground (arith, h))
  find_where-any p (x ∷ xs) h = pick (p x) h (find_where-any p xs)
    where
      pick :
          (b : Bool)
          → (b || any p xs) ≡ true
          → (any p xs ≡ true → (y : A) × (find_where p xs ≡ some y))
          → (y : A) × ((if b then some x else find_where p xs) ≡ some y)
      pick true k rest = (x, refl)
      pick false k rest = rest k

  pub any-find_where :
      (p q : A → Bool) (xs : List A) {x : A}
      → find_where p xs ≡ some x
      → q x ≡ true
      → any (λ y. q y && p y) xs ≡ true
  any-find_where p q [] h k = cc
  any-find_where p q (y ∷ xs) {x} h k = ground (arith, h, k, any-find_where p q xs {x = x})

  pub select_where_spent :
      (p : A → Bool) (f : A → A)
      → ((x : A) → p x ≡ true → p (f x) ≡ false)
      → (xs : List A) → select_where p (update_where p f xs) ≡ []
  select_where_spent p f h [] = refl
  select_where_spent p f h (x ∷ xs) = ground (arith, select_where_spent p f h xs, h x)

  pub select_where_hit :
      (p : A → Bool) (x : A) (xs : List A)
      → p x ≡ true
      → select_where p (x ∷ xs) ≡ x ∷ select_where p xs
  select_where_hit p x xs h = ground (arith, h)
