-- ===== src/Dal/Contract/Complete.antt =====
-- Nothing accepted is missing from `accepted_scenarios` of app/db/dal.py.
use mathlib.Core.List.Memᴰ
use mathlib.Core.List.{Memᴰ}
use tsg.Base.{
  ℕ, ◌≡◌, ap, sym, ◌∙◌, subst, Bool, true, false, List, [], ◌∷◌, ◌++◌, arith, ◌==◌, if◌then◌else◌,
  nat_eq, select_where,
}
use tsg.Base.Sort.{insert_by, sort_by}
use tsg.Models.{Db, ThreatRow, ScopedRow, OutputRow}
use tsg.Dal.Contract.Scenarios.{
  contract_row, is_accepted_of, join_threats, join_scoped, join_outputs, in_order,
  accepted_scenarios,
}

module _ {ℓ} {A : Type ℓ} where
  -- An element stays an element: of a selection that its test passes, of a sorted list, of an append.
  mem-if :
      (b : Bool) {a : A} (xs ys : List A) → Memᴰ a xs → Memᴰ a ys → Memᴰ a (if b then xs else ys)
  mem-if true xs ys h k = h
  mem-if false xs ys h k = k

  mem-insert_by :
      (first : A → A → Bool) (x : A) {a : A} (ys : List A)
      → Memᴰ a (x ∷ ys)
      → Memᴰ a (insert_by first x ys)
  unfolding insert_by
  mem-insert_by first x [] h = h
  mem-insert_by first x (y ∷ ys) h =
      mem-if (first x y) (x ∷ y ∷ ys) (y ∷ insert_by first x ys) h
        (swapped h (mem-insert_by first x ys))
    where
      swapped :
          {a : A}
          → Memᴰ a (x ∷ y ∷ ys)
          → (Memᴰ a (x ∷ ys) → Memᴰ a (insert_by first x ys))
          → Memᴰ a (y ∷ insert_by first x ys)
      swapped (Memᴰ.head e) k = Memᴰ.tail (k (Memᴰ.head e))
      swapped (Memᴰ.tail (Memᴰ.head e)) k = Memᴰ.head e
      swapped (Memᴰ.tail (Memᴰ.tail m)) k = Memᴰ.tail (k (Memᴰ.tail m))

  mem-sort_by : (first : A → A → Bool) {a : A} (xs : List A) → Memᴰ a xs → Memᴰ a (sort_by first xs)
  unfolding sort_by
  mem-sort_by first [] m = elim m [ ]
  mem-sort_by first (x ∷ xs) (Memᴰ.head e) = mem-insert_by first x (sort_by first xs) (Memᴰ.head e)
  mem-sort_by first (x ∷ xs) (Memᴰ.tail m) =
      mem-insert_by first x (sort_by first xs) (Memᴰ.tail (mem-sort_by first xs m))

  mem-taken :
      (b : Bool) {a : A} (xs ys : List A) → b ≡ true → Memᴰ a xs → Memᴰ a (if b then xs else ys)
  mem-taken true xs ys e h = h
  mem-taken false xs ys e h = absurd (ground (arith, e))

  mem-select_where :
      (p : A → Bool) {a : A} (xs : List A) → p a ≡ true → Memᴰ a xs → Memᴰ a (select_where p xs)
  mem-select_where p [] h m = elim m [ ]
  mem-select_where p (x ∷ xs) h (Memᴰ.head e) =
      mem-taken (p x) (x ∷ select_where p xs) (select_where p xs) (ap p (sym e) ∙ h) (Memᴰ.head e)
  mem-select_where p (x ∷ xs) h (Memᴰ.tail m) =
      let rest = mem-select_where p xs h m in
      mem-if (p x) (x ∷ select_where p xs) (select_where p xs) (Memᴰ.tail rest) rest

module _ (o : OutputRow) (st : ScopedRow) (t : ThreatRow)
    (scoped_as : o.scoped_threat_id ≡ st.scoped_threat_id)
    (of_threat : st.threat_id ≡ t.threat_id) where
  join_threats-mem :
      (ts : List ThreatRow) → Memᴰ t ts → Memᴰ (contract_row o t) (join_threats o st ts)
  unfolding join_threats
  join_threats-mem [] m = elim m [ ]
  join_threats-mem (u ∷ ts) (Memᴰ.head e) =
      mem-taken (st.threat_id == u.threat_id) (contract_row o u ∷ join_threats o st ts)
        (join_threats o st ts)
        (ap (λ v. st.threat_id == v.threat_id) (sym e) ∙ ground (arith, of_threat))
        (Memᴰ.head (ap (contract_row o) e))
  join_threats-mem (u ∷ ts) (Memᴰ.tail m) =
      let rest = join_threats-mem ts m in
      mem-if (st.threat_id == u.threat_id) (contract_row o u ∷ join_threats o st ts)
        (join_threats o st ts) (Memᴰ.tail rest) rest

  module _ (ts : List ThreatRow) (in_threats : Memᴰ t ts) where
    join_scoped-mem :
        (sts : List ScopedRow) → Memᴰ st sts → Memᴰ (contract_row o t) (join_scoped o sts ts)
    unfolding join_scoped
    join_scoped-mem [] m = elim m [ ]
    join_scoped-mem (u ∷ sts) (Memᴰ.head e) =
        mem-taken (o.scoped_threat_id == u.scoped_threat_id)
          (join_threats o u ts ++ join_scoped o sts ts) (join_scoped o sts ts)
          (ap (λ v. o.scoped_threat_id == v.scoped_threat_id) (sym e) ∙ ground (arith, scoped_as))
          (Memᴰ.append_left (join_scoped o sts ts) (
            subst (λ v. Memᴰ (contract_row o t) (join_threats o v ts)) e
              (join_threats-mem ts in_threats)))
    join_scoped-mem (u ∷ sts) (Memᴰ.tail m) =
        let rest = join_scoped-mem sts m in
        mem-if (o.scoped_threat_id == u.scoped_threat_id)
          (join_threats o u ts ++ join_scoped o sts ts) (join_scoped o sts ts)
          (Memᴰ.append_right (join_threats o u ts) rest) rest

    join_outputs-mem :
        (sts : List ScopedRow) (os : List OutputRow)
        → Memᴰ st sts
        → Memᴰ o os
        → Memᴰ (contract_row o t) (join_outputs os sts ts)
    unfolding join_outputs
    join_outputs-mem sts [] m n = elim n [ ]
    join_outputs-mem sts (u ∷ os) m (Memᴰ.head e) =
        Memᴰ.append_left (join_outputs os sts ts)
          (subst (λ v. Memᴰ (contract_row o t) (join_scoped v sts ts)) e (join_scoped-mem sts m))
    join_outputs-mem sts (u ∷ os) m (Memᴰ.tail n) =
        Memᴰ.append_right (join_scoped u sts ts) (join_outputs-mem sts os m n)

-- A current output of the session that was accepted, with its scoped threat and the threat of that,
-- is among the rows that the consumer reads, with the ids and names of that threat.
pub accepted_scenarios_complete :
    (sid : ℕ) (db : Db) (o : OutputRow) (st : ScopedRow) (t : ThreatRow)
    → Memᴰ o db.outputs
    → Memᴰ st db.scoped
    → Memᴰ t db.threats
    → is_accepted_of sid o ≡ true
    → o.scoped_threat_id ≡ st.scoped_threat_id
    → st.threat_id ≡ t.threat_id
    → Memᴰ (contract_row o t) (accepted_scenarios sid db)
unfolding accepted_scenarios
accepted_scenarios_complete sid db o st t mo ms mt yes_o scoped_as of_threat =
    mem-sort_by in_order _ (
      join_outputs-mem o st t scoped_as of_threat db.threats mt db.scoped
        (select_where (is_accepted_of sid) db.outputs) ms
        (mem-select_where (is_accepted_of sid) db.outputs yes_o mo))
