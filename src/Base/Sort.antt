-- ===== src/Base/Sort.antt =====
-- Stable sorting: Python's `sorted(..., reverse=True)` by a key, and SQL's ORDER BY.
use Prim.Native.Nat.{ℕ, zero, suc}
use mathlib.Core.Path.{◌≡◌, refl, subst, fun_ext}
use mathlib.Core.Bool.{Bool, true, false, ◌&&◌}
use mathlib.Core.List.{List, [], ◌∷◌}
use native.Mathlib.Omega.{arith}
use tsg.Base.Tests.{leb, nat_beq, if◌then◌else◌}
use tsg.Base.Lists.{All, All-mono, any, take}
use tsg.Base.Table.{select_where}

module _ {ℓ} {A : Type ℓ} where
  -- `first x y` says that `x`, which comes before `y` in the input, may stay before it.
  unfoldable pub insert_by : (A → A → Bool) → A → List A → List A
  insert_by first x [] = x ∷ []
  insert_by first x (y ∷ ys) = if first x y then x ∷ y ∷ ys else y ∷ insert_by first x ys

  unfoldable pub sort_by : (A → A → Bool) → List A → List A
  unfolding insert_by
  sort_by first [] = []
  sort_by first (x ∷ xs) = insert_by first x (sort_by first xs)

  -- ORDER BY a number, ascending.
  unfoldable pub order_by : (A → ℕ) → List A → List A
  unfolding sort_by
  order_by key = sort_by (λ x y. leb (key x) (key y))

  module _ {κ} (P : A → Type κ) where
    All-insert_by :
        (first : A → A → Bool) (x : A) (ys : List A) → P x → All P ys → All P (insert_by first x ys)
    unfolding insert_by
    All-insert_by first x [] h hs = (h, tt)
    All-insert_by first x (y ∷ ys) h hs =
        ground (arith, All-insert_by first x ys h hs.1, h, hs.0, hs.1)

    pub All-sort_by : (first : A → A → Bool) (xs : List A) → All P xs → All P (sort_by first xs)
    unfolding sort_by
    All-sort_by first [] h = tt
    All-sort_by first (x ∷ xs) h =
        All-insert_by first x (sort_by first xs) h.0 (All-sort_by first xs h.1)

    pub All-take : (n : ℕ) (xs : List A) → All P xs → All P (take n xs)
    All-take zero xs h = tt
    All-take (suc n) [] h = tt
    All-take (suc n) (x ∷ xs) h = (h.0, All-take n xs h.1)

    -- What a selection returns has what its test says.
    pub All-select_where :
        (p : A → Bool) (xs : List A) → ((x : A) → p x ≡ true → P x) → All P (select_where p xs)
    All-select_where p [] f = tt
    All-select_where p (x ∷ xs) f = ground (arith, All-select_where p xs f, f x)

    -- What holds of all rows holds of those that a selection returns.
    pub All-select_where_sub : (p : A → Bool) (xs : List A) → All P xs → All P (select_where p xs)
    All-select_where_sub p [] h = tt
    All-select_where_sub p (x ∷ xs) h = ground (arith, All-select_where_sub p xs h.1, h.0)

-- Every row that a selection returns is found in the table, by its key and the test.
pub select_where_found {ℓ} :
    {A : Type ℓ} (key : A → ℕ) (p : A → Bool) (xs : List A)
    → All (λ r. any (λ x. nat_beq (key x) (key r) && p x) xs ≡ true) (select_where p xs)
select_where_found key p [] = tt
select_where_found {A} key p (x ∷ xs) = pick (select_where_found key p xs) (p x) refl
  where
    Found : List A → A → Type 0
    Found ys r = any (λ y. nat_beq (key y) (key r) && p y) ys ≡ true

    pick :
        All (Found xs) (select_where p xs)
        → (b : Bool) → p x ≡ b
        → All (Found (x ∷ xs)) (if b then x ∷ select_where p xs else select_where p xs)
    pick ih true e =
        (ground (arith, e), All-mono _ _ (λ r h. ground (arith, h)) (select_where p xs) ih)
    pick ih false e = All-mono _ _ (λ r h. ground (arith, h)) (select_where p xs) ih

-- The same where the rows are described by an equal test.
pub select_where_described {ℓ} :
    {A : Type ℓ} (key : A → ℕ) (p q : A → Bool)
    → ((x : A) → p x ≡ q x)
    → (xs : List A)
    → All (λ r. any (λ x. nat_beq (key x) (key r) && q x) xs ≡ true) (select_where p xs)
select_where_described key p q same xs =
    subst (λ t. All (λ r. any (λ x. nat_beq (key x) (key r) && t x) xs ≡ true) (select_where p xs))
      (fun_ext same) (select_where_found key p xs)
