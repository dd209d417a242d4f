-- ===== src/Dal/Contract/Latest.antt =====
-- What `latest_completed_session` of app/db/dal.py answers.
use mathlib.Core.List.{Memᴰ}
use tsg.Base.{
  ℕ, ◌≡◌, ◌≢◌, ◌≤◌, ◌↔◌, ◌⊎◌, inl, inr, Bool-cases, refl, Bool, true, false, ◌&&◌, ◌||◌, Option,
  none, some, List, [], ◌∷◌, arith, All-mono, ltb, leb, if◌then◌else◌, nat_eq, string_eq, All,
  select_where,
}
use tsg.Enums.{SessionStatus, session_status_eq, session_status_iff}
use tsg.Models.{Db, SessionRow}
use tsg.Dal.Contract.{
  is_completed_of, later_than, same_time, goes_first, first_of, latest_completed_session,
}

-- A completed session of the asset.
abbrev pub Completed : ℕ → ℕ → SessionRow → Type 0
Completed entity asset r =
    (r.entity_id ≡ entity)
    × (r.asset_external_id ≡ asset)
    × (r.session_status ≡ SessionStatus.completed)

-- The first time is not before the second; a time that is not known is before all.
abbrev pub NotBefore : Option ℕ → Option ℕ → Type 0
NotBefore t none = Unit
NotBefore none (some b) = ⊥
NotBefore (some a) (some b) = b ≤ a

-- `x` was completed later than `r`, or at the same time with an id that is not greater.
abbrev pub IsLatest : SessionRow → SessionRow → Type 0
IsLatest x r =
    NotBefore x.completed_at r.completed_at
    × ((x.completed_at ≢ r.completed_at) ⊎ (x.session_id ≤ r.session_id))

abbrev pub Latest : ℕ → ℕ → List SessionRow → Option SessionRow → Type 0
Latest entity asset rows none = All (λ r. ¬ Completed entity asset r) rows
Latest entity asset rows (some x) =
    Memᴰ x rows × Completed entity asset x × All (λ r. Completed entity asset r → IsLatest x r) rows

-- No row goes before the one that comes first.
abbrev Leads : (SessionRow → Bool) → List SessionRow → Option SessionRow → Type 0
Leads p rows none = All (λ r. p r ≡ false) rows
Leads p rows (some x) =
    (p x ≡ true) × Memᴰ x rows × All (λ r. p r ≡ true → goes_first x r ≡ true) rows

goes_first_trans :
    (x y z : SessionRow) → goes_first x y ≡ true → goes_first y z ≡ true → goes_first x z ≡ true
goes_first_trans x y z h k = ground (arith, h, k)

goes_first_total : (x y : SessionRow) → goes_first x y ≡ false → goes_first y x ≡ true
goes_first_total x y h = ground (arith, h)

goes_first_refl : (x : SessionRow) → goes_first x x ≡ true
goes_first_refl x = ground arith

module _ (p : SessionRow → Bool) where
  -- A further row that is not selected.
  skip-Leads :
      (r : SessionRow) (rows : List SessionRow) (o : Option SessionRow)
      → p r ≡ false
      → Leads p rows o
      → Leads p (r ∷ rows) o
  skip-Leads r rows none e h = (e, h)
  skip-Leads r rows (some x) e (px, m, h) = (px, Memᴰ.tail m, ((λ e'. ground (arith, e, e')), h))

  -- A further row that is.
  add-Leads :
      (r : SessionRow) (rows : List SessionRow) (o : Option SessionRow)
      → p r ≡ true
      → Leads p rows o
      → Leads p
          (r ∷ rows)
          (elim o [ none ↦ some r | some x ↦ (if goes_first r x then some r else some x) ])
  add-Leads r rows none e h = (
    e,
    Memᴰ.head refl,
    ((λ _. goes_first_refl r), All-mono _ _ (λ y ny py. ground (arith, ny, py)) rows h),
  )
  add-Leads r rows (some x) e (px, m, h) = pick (goes_first r x) refl
    where
      pick : (b : Bool) → goes_first r x ≡ b → Leads p (r ∷ rows) (if b then some r else some x)
      pick true first = (
        e,
        Memᴰ.head refl,
        (
          (λ _. goes_first_refl r),
          All-mono _ _ (λ y k py. goes_first_trans r x y first (k py)) rows h,
        ),
      )
      pick false last = (px, Memᴰ.tail m, ((λ _. goes_first_total r x last), h))

  first_of-Leads : (rows : List SessionRow) → Leads p rows (first_of (select_where p rows))
  unfolding first_of
  first_of-Leads [] = tt
  first_of-Leads (r ∷ rows) = pick (p r) refl (first_of-Leads rows)
    where
      pick :
          (b : Bool)
          → p r ≡ b
          → Leads p rows (first_of (select_where p rows))
          → Leads p
              (r ∷ rows)
              (first_of (if b then r ∷ select_where p rows else select_where p rows))
      pick true e h = add-Leads r rows (first_of (select_where p rows)) e h
      pick false e h = skip-Leads r rows (first_of (select_where p rows)) e h

is_completed_of_iff :
    (entity asset : ℕ) (r : SessionRow)
    → (is_completed_of entity asset r ≡ true) ↔ Completed entity asset r
is_completed_of_iff entity asset r =
    let (to, from) = session_status_iff r.session_status SessionStatus.completed in
    (
      λ h. (ground (arith, h), ground (arith, h), to (ground (arith, h))),
      λ h. ground (arith, h.0, h.1, from h.2),
    )

goes_first-IsLatest : (x r : SessionRow) → goes_first x r ≡ true → IsLatest x r
goes_first-IsLatest x r = times x.completed_at r.completed_at
  where
    times :
        (t u : Option ℕ)
        → (later_than t u || (same_time t u && leb x.session_id r.session_id)) ≡ true
        → NotBefore t u × ((t ≢ u) ⊎ (x.session_id ≤ r.session_id))
    times none none h = (tt, inr (ground (arith, h)))
    times none (some b) h = absurd (ground (arith, h))
    times (some a) none h = (tt, inl (λ e. ground (arith, e)))
    times (some a) (some b) h = elim (Bool-cases (ltb b a)) [
      | inl later ↦ (ground (arith, later), inl (λ e. ground (arith, e, later)))
      | inr other ↦ (ground (arith, h, other), inr (ground (arith, h, other)))
    ]

Leads-Latest :
    (entity asset : ℕ) (rows : List SessionRow) (o : Option SessionRow)
    → Leads (is_completed_of entity asset) rows o
    → Latest entity asset rows o
Leads-Latest entity asset rows none h =
    All-mono _ _ (λ r e c. ground (arith, e, (is_completed_of_iff entity asset r).1 c)) rows h
Leads-Latest entity asset rows (some x) (here, m, h) = (
  m,
  (is_completed_of_iff entity asset x).0 here,
  All-mono _ _
      (λ r first c. goes_first-IsLatest x r (first ((is_completed_of_iff entity asset r).1 c))) rows
      h,
)

-- The answer is a row of the table and a completed session of the asset; of all of them it was completed
-- last, with the least id among those of the same time, where a missing time counts as the first;
-- there is no answer only if there is no such session.
pub latest_completed_session_lem :
    (entity asset : ℕ) (db : Db)
    → Latest entity asset db.sessions (latest_completed_session entity asset db)
unfolding latest_completed_session
latest_completed_session_lem entity asset db =
    Leads-Latest entity asset db.sessions _
      (first_of-Leads (is_completed_of entity asset) db.sessions)
