-- ===== src/Pipeline/Accept/Guards.antt =====
-- What `accept_session` of app/pipeline/accept.py demands before it writes.
use tsg.Base.{
  ℕ, ◌≡◌, refl, ap, sym, subst, Bool, true, false, not, ◌&&◌, Option, some, List, [], ◌∷◌, ◌++◌,
  arith, All, All-mono, map, ◌==◌, nat_eq, if◌then◌else◌, contains, find_where, select_where,
  Bool-cases, inl, inr,
}
use tsg.Enums.{
  WorkflowStage, StageStatus, SubsystemLevel, level_eq, grounding_eq, workflow_stage_eq,
  stage_status_eq, workflow_stage_iff, stage_status_iff,
}
use tsg.Models.{Db, SessionRow, StageRow}
use tsg.Python.{Builtins}
use tsg.World.{World}
use tsg.Dal.Settings.{Settings}
use tsg.Dal.Sessions.{get_session}
use tsg.Dal.Stages.{is_cell, acquire_lock, subsystem_ids_at_level}
use tsg.Dal.Stages.Cells.{UniqueCells}
use tsg.Dal.Stages.Mutex.{lock_status, Board, HasStatus, acquired-mine, acquired-other}
use tsg.Pipeline.Locks.{take_locks}
use tsg.Pipeline.Accept.{accepted, is_grounded_row, reviewed_subsystems, accept_session}
use tsg.Pipeline.Accept.Cases.{found_id, locks_of, taken_by, good_of, accept_session_cases}
use tsg.Pipeline.Accept.Refused.{OnlyBoard, take_locks-OnlyBoard}
use tsg.Pipeline.Accept.Masters.{ActiveMasters, assert_masters_active_lem}
use tsg.Pipeline.Accept.Effect.{is_under_review, reviewed_subsystems_lem}

module _ (s : Settings) (sid b : ℕ) (status : StageStatus)
    (busy : ¬ (status ≡ StageStatus.idle)) where
  -- The loop stops at a lock that is not free.
  take_locks_busy :
      (subs acquired : List ℕ) (w : World)
      → Board sid b (HasStatus status) w.db.stages
      → contains subs b ≡ true
      → (take_locks s sid subs acquired w).0 ≡ false
  unfolding take_locks
  take_locks_busy [] acquired w g h = absurd (ground (arith, h))
  take_locks_busy (ss ∷ rest) acquired w g h = elim (Bool-cases (ss == b)) [
    | inl e ↦
        let (idle, _, _) =
          acquired-mine s w.now sid b sid ss sid status w.db (ground (arith, e)) g in
        stopped (acquire_lock s w.now sid ss sid w.db).0 idle
    | inr e ↦
        let more =
          take_locks_busy rest (acquired ++ ss ∷ []) w₁
            (acquired-other s w.now sid b sid ss sid (HasStatus status) w.db (ground (arith, e)) g)
            (ground (arith, h, e)) in
        either (acquire_lock s w.now sid ss sid w.db).0 more
  ]
    where
      w₁ : World
      w₁ = record w { db = (acquire_lock s w.now sid ss sid w.db).1 }

      stopped :
          (won : Bool)
          → (won ≡ true → StageStatus.idle ≡ status)
          → (if won
              then take_locks s sid rest (acquired ++ ss ∷ []) w₁
              else (false, acquired, w₁)).0
            ≡ false
      stopped true idle = absurd (busy (sym (idle refl)))
      stopped false idle = refl

      either :
          (won : Bool)
          → (take_locks s sid rest (acquired ++ ss ∷ []) w₁).0 ≡ false
          → (if won
              then take_locks s sid rest (acquired ++ ss ∷ []) w₁
              else (false, acquired, w₁)).0
            ≡ false
      either true h = h
      either false h = refl

-- The subsystem of a lock is among those whose locks are taken.
lock_listed :
    (sid ss : ℕ) (status : StageStatus) (rows : List StageRow)
    → HasStatus status (find_where (is_cell sid ss SubsystemLevel.lock) rows)
    → contains
        (map
          (λ r. r.subsystem_id)
          (select_where (λ r. r.session_id == sid && r.level == SubsystemLevel.lock && true) rows))
        ss
      ≡ true
lock_listed sid ss status [] h = absurd (ground (arith, h))
lock_listed sid ss status (r ∷ rows) h = ground (arith, h, lock_listed sid ss status rows)

module _ (sid : ℕ) (old : Db) (w w₁ : World) (before : OnlyBoard w w₁) where
  masters_across :
      All
        (λ t. is_grounded_row sid (reviewed_subsystems sid old) t ≡ true → ActiveMasters w₁.db t)
        w₁.db.threats
      → All
          (λ t.
            (t.session_id == sid && not t.superseded && is_under_review sid t.subsystem_id old)
              ≡ true
            → ActiveMasters w.db t)
          w.db.threats
  masters_across h =
      subst
        (λ v.
          All
            (λ t.
              (t.session_id == sid && not t.superseded && is_under_review sid t.subsystem_id old)
                ≡ true
              → ActiveMasters v.db t)
            v.db.threats)
        before
        (All-mono _ _
          (λ t k e.
            let m = k (ground (arith, e, reviewed_subsystems_lem sid t.subsystem_id old)) in
            record { active_type = m.active_type; active_entry = m.active_entry })
          w₁.db.threats h)

module _ (s : Settings) (py : Builtins) (uuid4 identity : ℕ → ℕ) where
  -- An accept goes through only on a session of the caller's entity that is at the review barrier, with
  -- every lock of the session free (so while a regeneration holds one, it does not), and with active
  -- library rows behind every current threat of the subsystems under review, where the catalogue entry
  -- of a flagged threat does not count. The board has at most one row for each cell.
  pub accept_session_guards :
      (sid entity : ℕ) (user : Option ℕ) (subset : Option (List ℕ)) (w : World)
      → UniqueCells w.db
      → (accept_session s py uuid4 identity sid entity user subset w).0 ≡ accepted
      → ((x : SessionRow) × (get_session sid entity w.db ≡ some x)
          × (x.current_stage ≡ WorkflowStage.review)
          × (x.stage_status ≡ StageStatus.awaiting_decision))
        × ((ss : ℕ) (status : StageStatus)
            → lock_status sid ss w.db ≡ some status
            → status ≡ StageStatus.idle)
        × All
            (λ t.
              (t.session_id == sid && not t.superseded && is_under_review sid t.subsystem_id w.db)
                ≡ true
              → ActiveMasters w.db t)
            w.db.threats
  unfolding subsystem_ids_at_level
  accept_session_guards sid entity user subset w u =
      accept_session_cases s py uuid4 identity sid entity user subset w
        (λ answer w'. answer ≡ accepted → Demanded) (λ e h. absurd (ground (arith, h)))
        (λ x found gate taken w₁ t h. absurd (ground (arith, h)))
        (λ x found gate taken w₁ t e m h. absurd (ground (arith, h)))
        (λ x found gate taken w₁ t m h. (
          (
            x,
            found,
            ground (arith, gate, workflow_stage_iff x.current_stage WorkflowStage.review),
            ground (arith, gate, stage_status_iff x.stage_status StageStatus.awaiting_decision),
          ),
          free x (found_id sid entity w.db x found) (ap (λ r. r.0) t),
          active x (found_id sid entity w.db x found) w₁ (ap (λ r. r.2) t)
              (assert_masters_active_lem x.session_id (good_of w x) w₁.db m),
        ))
    where
      Free : ℕ → Type 0
      Free i =
          (ss : ℕ) (status : StageStatus)
          → lock_status i ss w.db ≡ some status
          → status ≡ StageStatus.idle

      Active : ℕ → Type 0
      Active i =
          All
            (λ t.
              (t.session_id == i && not t.superseded && is_under_review i t.subsystem_id w.db)
                ≡ true
              → ActiveMasters w.db t)
            w.db.threats

      Demanded : Type 0
      Demanded =
          ((x : SessionRow) × (get_session sid entity w.db ≡ some x)
            × (x.current_stage ≡ WorkflowStage.review)
            × (x.stage_status ≡ StageStatus.awaiting_decision))
          × Free sid
          × Active sid

      free : (x : SessionRow) → x.session_id ≡ sid → (taken_by s w x).0 ≡ true → Free sid
      free x same all_ours = subst Free same (λ ss status e.
          elim (Bool-cases (status == StageStatus.idle)) [
            | inl i ↦ (stage_status_iff status StageStatus.idle).0 i
            | inr n ↦
                let busy : ¬ (status ≡ StageStatus.idle) =
                  λ i. ground (arith, n, (stage_status_iff status StageStatus.idle).1 i) in
                let stopped =
                  take_locks_busy s x.session_id ss status busy (locks_of w x) [] w (u, e)
                    (lock_listed x.session_id ss status w.db.stages e) in
                absurd (ground (arith, stopped, all_ours))
          ])

      active :
          (x : SessionRow)
          → x.session_id ≡ sid
          → (w₁ : World) → (taken_by s w x).2 ≡ w₁
          → All
              (λ t. is_grounded_row x.session_id (good_of w x) t ≡ true → ActiveMasters w₁.db t)
              w₁.db.threats
          → Active sid
      active x same w₁ t h = subst Active same (
          masters_across x.session_id w.db w w₁
            (subst (OnlyBoard w) t (take_locks-OnlyBoard s x.session_id (locks_of w x) [] w)) h)
