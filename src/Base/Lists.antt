-- ===== src/Base/Lists.antt =====
-- Lists measured by native numbers, membership tests, and predicates over lists by recursion.
use Prim.Native.Nat.{ℕ, zero, suc, ◌+◌, ◌-◌, min}
use mathlib.Core.Path.{◌≡◌, refl, ap, subst}
use mathlib.Core.Bool.{Bool, true, false, ◌||◌, ◌&&◌}
use mathlib.Core.List.{List, [], ◌∷◌, ◌++◌, Perm, reverse}
use mathlib.Core.List.Perm
use mathlib.Core.List.Permᴰ
use native.Mathlib.Omega.{arith}
use tsg.Base.Tests.{HasEq, ◌==◌, if◌then◌else◌}

module _ {ℓ} {A : Type ℓ} where
  abbrev pub length : List A → ℕ
  length [] = 0
  length (x ∷ xs) = suc (length xs)

  abbrev pub take : ℕ → List A → List A
  take zero xs = []
  take (suc n) [] = []
  take (suc n) (x ∷ xs) = x ∷ take n xs

  abbrev pub drop : ℕ → List A → List A
  drop zero xs = xs
  drop (suc n) [] = []
  drop (suc n) (x ∷ xs) = drop n xs

  pub take-append-drop : (n : ℕ) (xs : List A) → take n xs ++ drop n xs ≡ xs
  take-append-drop zero xs = refl
  take-append-drop (suc n) [] = refl
  take-append-drop (suc n) (x ∷ xs) = ap (◌∷◌ x) (take-append-drop n xs)

  pub length-take : (n : ℕ) (xs : List A) → length (take n xs) ≡ min n (length xs)
  length-take zero xs = omega arith
  length-take (suc n) [] = omega arith
  length-take (suc n) (x ∷ xs) = omega (arith, length-take n xs)

  pub length-drop : (n : ℕ) (xs : List A) → length (drop n xs) ≡ length xs - n
  length-drop zero xs = omega arith
  length-drop (suc n) [] = omega arith
  length-drop (suc n) (x ∷ xs) = omega (arith, length-drop n xs)

  pub length-append : (xs ys : List A) → length (xs ++ ys) ≡ length xs + length ys
  length-append [] ys = omega arith
  length-append (x ∷ xs) ys = omega (arith, length-append xs ys)

  -- Python's `any` and `all` over a test.
  abbrev pub any : (A → Bool) → List A → Bool
  any p [] = false
  any p (x ∷ xs) = p x || any p xs

  abbrev pub all : (A → Bool) → List A → Bool
  all p [] = true
  all p (x ∷ xs) = p x && all p xs

  -- A predicate that holds of every element.
  abbrev pub All {κ} : (A → Type κ) → List A → Type κ
  All P [] = Unit
  All P (x ∷ xs) = P x × All P xs

module _ {ℓ κ μ} {A : Type ℓ} (P : A → Type κ) (Q : A → Type μ) where
  pub All-mono : ((x : A) → P x → Q x) → (xs : List A) → All P xs → All Q xs
  All-mono f [] h = tt
  All-mono f (x ∷ xs) h = (f x h.0, All-mono f xs h.1)

  pub All-both : (xs : List A) → All P xs → All Q xs → All (λ x. P x × Q x) xs
  All-both [] h k = tt
  All-both (x ∷ xs) h k = ((h.0, k.0), All-both xs h.1 k.1)

module _ {ℓ κ} {A : Type ℓ} (P : A → Type κ) where
  pub All-of_forall : ((x : A) → P x) → (xs : List A) → All P xs
  All-of_forall f [] = tt
  All-of_forall f (x ∷ xs) = (f x, All-of_forall f xs)

module _ {ℓ} {A : Type ℓ} ⦃e : HasEq A⦄ where
  -- Python's `a in xs`, and SQL's `IN`.
  abbrev pub contains : List A → A → Bool
  contains [] a = false
  contains (x ∷ xs) a = x == a || contains xs a

  -- A set, as a list that names each of its elements once.
  abbrev pub distinct : List A → List A
  distinct [] = []
  distinct (x ∷ xs) = let rest = distinct xs in if contains rest x then rest else x ∷ rest

-- Lists that are equal, or equal but for the direction, as multisets.
module _ {ℓ} {A : Type ℓ} where
  pub Perm-path : {xs ys : List A} → xs ≡ ys → Perm xs ys
  Perm-path {xs} e = subst (Perm xs) e (Perm.refl xs)

  pub reverse-Perm : {xs ys : List A} → xs ≡ reverse ys → Perm xs ys
  reverse-Perm {xs} {ys} e = Perm.trans (Perm-path e) ∣ Permᴰ.reverse ys ∣₁
