-- ===== src/Pipeline/Accept/Masters.antt =====
-- `_assert_masters_active` of app/pipeline/accept.py.
use tsg.Base.{
  ℕ, ◌≡◌, refl, subst, Bool, true, false, not, Option, none, some, List, [], ◌∷◌, arith, All,
  All-mono, All-both, nat_eq, if◌then◌else◌, select_where,
}
use tsg.Enums.{
  GroundingStatus, level_eq, grounding_eq, workflow_stage_eq, stage_status_eq, grounding_iff,
}
use tsg.Models.{Db, ThreatRow}
use tsg.Pipeline.Accept.{
  Refusal, with_id, none_left, is_grounded_row, collect_ids, stored_type, stored_entry,
  type_is_active, entry_is_active, assert_masters_active,
}

module _ {A : Type 0} where
  none_selected : (p : A → Bool) (xs : List A) → select_where p xs ≡ [] → All (λ x. p x ≡ false) xs
  none_selected p [] h = tt
  none_selected p (x ∷ xs) h = ground (arith, h, none_selected p xs)

  All-selected {κ} :
      (P : A → Type κ) (p : A → Bool) (xs : List A)
      → All P (select_where p xs)
      → All (λ x. p x ≡ true → P x) xs
  All-selected P p [] h = tt
  All-selected P p (x ∷ xs) h = pick (All-selected P p xs) (p x) refl h
    where
      pick :
          (All P (select_where p xs) → All (λ y. p y ≡ true → P y) xs)
          → (b : Bool) → p x ≡ b
          → All P (if b then x ∷ select_where p xs else select_where p xs)
          → (p x ≡ true → P x) × All (λ y. p y ≡ true → P y) xs
      pick more true e k = ((λ _. k.0), more k.1)
      pick more false e k = ((λ e'. absurd (ground (arith, e, e'))), more k)

-- The library ids that the threat stores name active rows; the entry of a flagged threat does not count.
pub record ActiveMasters (db : Db) (t : ThreatRow) : Type 0 where
  pub active_type : (i : ℕ) → t.threat_type_id ≡ some i → type_is_active db i ≡ true
  pub active_entry :
      (i : ℕ)
      → t.threat_catalogue_id ≡ some i
      → ¬ (t.grounding_status ≡ GroundingStatus.flagged)
      → entry_is_active db i ≡ true

collect_ids-All :
    (P : ℕ → Type 0) (id_of : ThreatRow → Option ℕ) (ts : List ThreatRow)
    → All P (collect_ids id_of ts)
    → All (λ t. (i : ℕ) → id_of t ≡ some i → P i) ts
unfolding collect_ids
collect_ids-All P id_of [] h = tt
collect_ids-All P id_of (t ∷ ts) h = pick (collect_ids-All P id_of ts) (id_of t) h
  where
    pick :
        (All P (collect_ids id_of ts) → All (λ u. (i : ℕ) → id_of u ≡ some i → P i) ts)
        → (o : Option ℕ) → All P (with_id o (collect_ids id_of ts))
        → ((i : ℕ) → o ≡ some i → P i) × All (λ u. (i : ℕ) → id_of u ≡ some i → P i) ts
    pick more none k = ((λ i e. absurd (ground (arith, e))), more k)
    pick more (some j) k = ((λ i e. subst P (ground (arith, e)) k.0), more k.1)

none_left_lem :
    (ids : List ℕ) (next : Option Refusal) → none_left ids next ≡ none → (ids ≡ []) × (next ≡ none)
none_left_lem ids next h = ground (arith, h)

pub assert_masters_active_lem :
    (sid : ℕ) (good_subs : List ℕ) (db : Db)
    → assert_masters_active sid good_subs db ≡ none
    → All (λ t. is_grounded_row sid good_subs t ≡ true → ActiveMasters db t) db.threats
unfolding assert_masters_active
assert_masters_active_lem sid good_subs db h =
    let rows = select_where (is_grounded_row sid good_subs) db.threats in
    let (no_type, rest) = none_left_lem _ _ h in
    let (no_entry, _) = none_left_lem _ _ rest in
    let types =
      collect_ids-All (λ i. not (type_is_active db i) ≡ false) stored_type rows
        (none_selected _ (collect_ids stored_type rows) no_type) in
    let entries =
      collect_ids-All (λ i. not (entry_is_active db i) ≡ false) stored_entry rows
        (none_selected _ (collect_ids stored_entry rows) no_entry) in
    All-selected (ActiveMasters db) (is_grounded_row sid good_subs) db.threats (
      All-mono _ _
        (λ t k. record {
          active_type = λ i e. ground (arith, k.0 i e);
          active_entry = λ i e f. ground (arith, k.1 i (unflagged t i e f));
        })
        rows (All-both _ _ rows types entries))
  where
    unflagged :
        (t : ThreatRow) (i : ℕ)
        → t.threat_catalogue_id ≡ some i
        → ¬ (t.grounding_status ≡ GroundingStatus.flagged)
        → stored_entry t ≡ some i
    unflagged t i e f =
        ground (arith, e, f, grounding_iff t.grounding_status GroundingStatus.flagged)
