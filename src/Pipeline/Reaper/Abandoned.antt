-- ===== src/Pipeline/Reaper/Abandoned.antt =====
-- `_find_abandoned_sessions`: what is found, and that nothing else is.
use tsg.Base.{
  ℕ, ◌≡◌, ◌≢◌, ◌<◌, ◌+◌, ◌⊎◌, ◌↔◌, Bool, true, false, ◌&&◌, ◌||◌, List, [], ◌∷◌, ◌++◌,
  if◌then◌else◌, arith, All, All-mono, All-both, All-of_forall, any, contains, select_where, ◌==◌,
  nat_eq, Bool-cases, inl, inr,
}
use tsg.Enums.{
  SessionStatus, WorkflowStage, session_status_eq, workflow_stage_eq, session_status_iff,
  workflow_stage_iff,
}
use tsg.Models.{Db, SessionRow}
use tsg.Dal.Settings.{Settings}
use tsg.Dal.Sessions.{is_session}
use tsg.Pipeline.Reaper.{
  find_abandoned_sessions, add_new, add_batches, has_row, has_live_lease, is_candidate, is_stale,
  split_into_batches,
}
use tsg.Pipeline.Reaper.Batches.{any-split_into_batches}

module _ (P : SessionRow → Type 0) where
  All-select :
      (p : SessionRow → Bool) (rows : List SessionRow)
      → ((r : SessionRow) → p r ≡ true → P r)
      → All P (select_where p rows)
  All-select p [] h = tt
  All-select p (r ∷ rs) h = ground (arith, All-select p rs h, h r)

  All-snoc : (rows : List SessionRow) (r : SessionRow) → All P rows → P r → All P (rows ++ r ∷ [])
  All-snoc [] r h k = (k, tt)
  All-snoc (x ∷ xs) r h k = (h.0, All-snoc xs r h.1 k)

  All-add_new : (rs out : List SessionRow) → All P rs → All P out → All P (add_new rs out)
  unfolding add_new
  All-add_new [] out h k = k
  All-add_new (r ∷ rs) out h k = All-add_new rs _ h.1 (pick (has_row r.session_id out))
    where
      pick : (b : Bool) → All P (if b then out else out ++ r ∷ [])
      pick true = k
      pick false = All-snoc out r k h.0

has_row-snoc :
    (i : ℕ) (rows : List SessionRow) (r : SessionRow)
    → has_row i (rows ++ r ∷ []) ≡ (has_row i rows || (r.session_id == i))
has_row-snoc i [] r = ground arith
has_row-snoc i (x ∷ xs) r = ground (arith, has_row-snoc i xs r)

-- The dict only gains keys, and every row that is added has its key.
add_new_keeps :
    (i : ℕ) (rs out : List SessionRow) → has_row i out ≡ true → has_row i (add_new rs out) ≡ true
unfolding add_new
add_new_keeps i [] out h = h
add_new_keeps i (r ∷ rs) out h = add_new_keeps i rs _ (ground (arith, h, has_row-snoc i out r))

add_new_has :
    (i : ℕ) (rs out : List SessionRow) → has_row i rs ≡ true → has_row i (add_new rs out) ≡ true
unfolding add_new
add_new_has i [] out h = cc
add_new_has i (r ∷ rs) out h = elim (Bool-cases (r.session_id == i)) [
  | inl e ↦ add_new_keeps i rs _ (ground (arith, e, has_row-snoc i out r))
  | inr ne ↦ add_new_has i rs _ (ground (arith, h, ne))
]

select_has :
    (p : SessionRow → Bool) (rows : List SessionRow)
    → All (λ r. p r ≡ true → has_row r.session_id (select_where p rows) ≡ true) rows
select_has p [] = tt
select_has p (x ∷ xs) =
    (λ h. ground arith, All-mono _ _ (λ r f h. ground (arith, f h)) xs (select_has p xs))

module _ (now : ℕ) (db : Db) where
  -- One batch of the second query.
  abbrev in_batch : List ℕ → SessionRow → Bool
  in_batch b r = is_candidate now db r && contains b r.session_id

  abbrev batch_rows : List ℕ → List SessionRow
  batch_rows b = select_where (in_batch b) db.sessions

  abbrev in_batches : List (List ℕ) → SessionRow → Bool
  in_batches bs r = is_candidate now db r && any (λ b. contains b r.session_id) bs

  add_batches_keeps :
      (i : ℕ) (bs : List (List ℕ)) (out : List SessionRow)
      → has_row i out ≡ true
      → has_row i (add_batches now db bs out) ≡ true
  unfolding add_batches
  add_batches_keeps i [] out h = h
  add_batches_keeps i (b ∷ bs) out h =
      add_batches_keeps i bs (add_new (batch_rows b) out) (add_new_keeps i (batch_rows b) out h)

  add_batches_has :
      (bs : List (List ℕ)) (out : List SessionRow)
      → All
          (λ r. in_batches bs r ≡ true → has_row r.session_id (add_batches now db bs out) ≡ true)
          db.sessions
  unfolding add_batches
  add_batches_has [] out = All-of_forall _ (λ r h. ground arith) db.sessions
  add_batches_has (b ∷ bs) out =
      let out' = add_new (batch_rows b) out in
      All-mono _ _
        (λ r both h. elim (Bool-cases (in_batch b r)) [
          | inl here ↦
              add_batches_keeps r.session_id bs out'
                (add_new_has r.session_id (batch_rows b) out (both.0 here))
          | inr later ↦ both.1 (ground (arith, h, later))
        ])
        db.sessions
        (All-both _ _ db.sessions (select_has (in_batch b) db.sessions) (add_batches_has bs out'))

  module _ (P : SessionRow → Type 0) where
    add_batches-All :
        (bs : List (List ℕ)) (out : List SessionRow)
        → ((r : SessionRow) → in_batches bs r ≡ true → P r)
        → All P out
        → All P (add_batches now db bs out)
    unfolding add_batches
    add_batches-All [] out f h = h
    add_batches-All (b ∷ bs) out f h =
        add_batches-All bs (add_new (batch_rows b) out) (λ r k. f r (ground (arith, k)))
          (All-add_new P (batch_rows b) out
            (All-select P (in_batch b) db.sessions (λ r k. f r (ground (arith, k)))) h)

abbrev is_abandoned : Settings → ℕ → List ℕ → Db → SessionRow → Bool
is_abandoned s now proven_dead db r =
    is_candidate now db r && (is_stale s now r || contains proven_dead r.session_id)

-- Active, not at REVIEW, without a live lease, and either untouched for a full lease or proven dead.
abbrev pub Abandoned : Settings → ℕ → List ℕ → Db → SessionRow → Type 0
Abandoned s now proven_dead db r =
    (r.session_status ≡ SessionStatus.active)
    × (r.current_stage ≢ WorkflowStage.review)
    × (has_live_lease now r.session_id db ≡ false)
    × ((r.updated_at + s.stage_lease_seconds < now) ⊎ (contains proven_dead r.session_id ≡ true))

Abandoned-iff :
    (s : Settings) (now : ℕ) (proven_dead : List ℕ) (db : Db) (r : SessionRow)
    → (is_abandoned s now proven_dead db r ≡ true) ↔ Abandoned s now proven_dead db r
Abandoned-iff s now proven_dead db r =
    let status = session_status_iff r.session_status SessionStatus.active in
    let stage = workflow_stage_iff r.current_stage WorkflowStage.review in
    (
      λ h. (
        status.0 (ground (arith, h)),
        λ e. ground (arith, h, stage.1 e),
        ground (arith, h),
        elim (Bool-cases (is_stale s now r)) [
          | inl old ↦ inl (ground (arith, old))
          | inr fresh ↦ inr (ground (arith, h, fresh))
        ],
      ),
      λ h.
          let (active, here, free, why) = h in
          let active' = status.1 active in
          elim (Bool-cases (r.current_stage == WorkflowStage.review)) [
            | inl e ↦ absurd (here (stage.0 e))
            | inr e ↦ elim why [
              | inl old ↦ ground (arith, active', e, free, old)
              | inr dead ↦ ground (arith, active', e, free, dead)
            ]
          ],
    )

-- Every session that is found is abandoned, and every abandoned session of the table is found.
pub find_abandoned_sessions_lem :
    (s : Settings) (now : ℕ) (proven_dead : List ℕ) (db : Db)
    → let out = find_abandoned_sessions s now proven_dead db in
      All (Abandoned s now proven_dead db) out
      × All
          (λ r. Abandoned s now proven_dead db r → any (is_session r.session_id) out ≡ true)
          db.sessions
unfolding find_abandoned_sessions
find_abandoned_sessions_lem s now proven_dead db =
    let stale = λ (r : SessionRow). is_candidate now db r && is_stale s now r in
    let first = add_new (select_where stale db.sessions) [] in
    let bs = split_into_batches proven_dead in
    let P = Abandoned s now proven_dead db in
    let found = λ (r : SessionRow). Abandoned-iff s now proven_dead db r in
    (
      add_batches-All now db P bs first
          (λ r h. (found r).0 (ground (arith, h, any-split_into_batches proven_dead r.session_id)))
          (All-add_new P (select_where stale db.sessions) []
            (All-select P stale db.sessions (λ r h. (found r).0 (ground (arith, h)))) tt),
      All-mono _ _
          (λ r both k.
            let h = (found r).1 k in
            elim (Bool-cases (is_stale s now r)) [
              | inl old ↦ add_batches_keeps now db r.session_id bs first (
                  add_new_has r.session_id (select_where stale db.sessions) []
                    (both.0 (ground (arith, h, old))))
              | inr fresh ↦
                  both.1 (ground (arith, h, fresh, any-split_into_batches proven_dead r.session_id))
            ])
          db.sessions
          (All-both _ _ db.sessions (select_has stale db.sessions)
            (add_batches_has now db bs first)),
    )
