-- ===== src/Pipeline/Reaper/Batches.antt =====
-- `_split_into_batches`: no id is lost, and no batch goes past the limit of one statement.
use mathlib.Core.List.{flatten}
use tsg.Base.{
  ℕ, zero, suc, ◌≤◌, ◌≡◌, refl, ◌∙◌, ap, ◌||◌, List, [], ◌∷◌, ◌++◌, arith, All, length, take, drop,
  contains, any, take-append-drop, length-take, length-drop, nat_eq,
}
use tsg.Pipeline.Reaper.{batches, split_into_batches, in_chunk}

batches-flatten :
    (k fuel : ℕ) (items : List ℕ)
    → 1 ≤ k
    → length items ≤ fuel
    → flatten (batches k fuel items) ≡ items
unfolding batches flatten
batches-flatten k zero [] pos enough = refl
batches-flatten k zero (x ∷ xs) pos enough = absurd (omega arith)
batches-flatten k (suc fuel) [] pos enough = refl
batches-flatten k (suc fuel) (x ∷ xs) pos enough =
    ap (◌++◌ (take k (x ∷ xs)))
      (batches-flatten k fuel (drop k (x ∷ xs)) pos (omega (arith, length-drop {0} k (x ∷ xs))))
    ∙ take-append-drop k (x ∷ xs)

batches_bounds :
    (k fuel : ℕ) (items : List ℕ)
    → 1 ≤ k
    → All (λ b. (1 ≤ length b) × (length b ≤ k)) (batches k fuel items)
unfolding batches
batches_bounds k zero items pos = tt
batches_bounds k (suc fuel) [] pos = tt
batches_bounds k (suc fuel) (x ∷ xs) pos = (
  (omega (arith, length-take {0} k (x ∷ xs)), omega (arith, length-take {0} k (x ∷ xs))),
  batches_bounds k fuel (drop k (x ∷ xs)) pos,
)

-- The batches, put together, are the items in their order, and each holds from 1 to 1000 of them.
pub split_into_batches_lem :
    (items : List ℕ)
    → (flatten (split_into_batches items) ≡ items)
      × All (λ b. (1 ≤ length b) × (length b ≤ 1000)) (split_into_batches items)
unfolding split_into_batches
split_into_batches_lem items = (
  batches-flatten in_chunk (length items) items (omega arith) (omega arith),
  batches_bounds in_chunk (length items) items (omega arith),
)

contains-append :
    (xs ys : List ℕ) (i : ℕ) → contains (xs ++ ys) i ≡ (contains xs i || contains ys i)
contains-append [] ys i = refl
contains-append (x ∷ xs) ys i = ground (arith, contains-append xs ys i)

contains-flatten :
    (bs : List (List ℕ)) (i : ℕ) → any (λ b. contains b i) bs ≡ contains (flatten bs) i
unfolding flatten
contains-flatten [] i = refl
contains-flatten (b ∷ bs) i =
    ground (arith, contains-append b (flatten bs) i, contains-flatten bs i)

-- An id is in some batch exactly if it is among the items.
pub any-split_into_batches :
    (items : List ℕ) (i : ℕ) → any (λ b. contains b i) (split_into_batches items) ≡ contains items i
any-split_into_batches items i =
    contains-flatten (split_into_batches items) i
    ∙ ap (λ l. contains l i) (split_into_batches_lem items).0
