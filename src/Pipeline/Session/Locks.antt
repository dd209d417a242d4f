-- ===== src/Pipeline/Session/Locks.antt =====
-- The locks of app/pipeline/tasks.py: what the loop over the supporting systems leaves of them.
use tsg.Base.{
  ℕ, suc, ◌≡◌, refl, Bool, true, false, Option, none, some, List, [], ◌∷◌, arith, subst, ◌&&◌, ◌==◌,
  if◌then◌else◌, nat_eq, Bool-cases, inl, inr,
}
use tsg.Enums.{StageStatus, SubsystemLevel, level_eq, level_iff, stage_status_eq}
use tsg.Models.{StageRow, SessionRow, Subsystem}
use tsg.Dal.Stages.{acquire_lock, release_lock}
use tsg.Dal.Stages.Cells.{UniqueCells}
use tsg.Dal.Stages.Lock.{lock_cell}
use tsg.Dal.Stages.Mutex.{
  lock_status, Board, HasStatus, has_lock, has_lock_of, Board-update_ne, acquired-other,
  released-other, acquired-Board, released-Board,
}
use tsg.World.{World, ref_of}
use tsg.Pipeline.Keeps.{Keeps}
use tsg.Pipeline.Run.{Services, Run}
use tsg.Dal.Sessions.{load_session}
use tsg.Pipeline.Outcome.{decide_session_outcome}
use tsg.Pipeline.Outcome.Board.{decide_session_outcome-OnBoards}
use tsg.Pipeline.Frame.{WorkStable, OnBoards}
use tsg.Pipeline.Session.{
  run_stages, recover, let_go, with_lock, process_one, process_each, process_all_supporting_systems,
}
use tsg.Pipeline.Session.Board.{run_stages-Keeps, recover-OnBoards}

Board-stable : (a b : ℕ) (R : Option StageRow → Type 0) → WorkStable (Board a b R)
Board-stable a b R p f keep spares rows =
    Board-update_ne a b p f rows R keep
      (λ x h. spares x (ground (arith, h, level_iff x.level SubsystemLevel.lock)))

-- Work that keeps whatever the board of work rows may keep.
abbrev pub KeepsBoards : {A : Type 0} → Run A → Type 1
KeepsBoards m = (P : List StageRow → Type 0) → WorkStable P → Keeps (OnBoards P) m

module _ (sv : Services) (x : SessionRow) (ss a b : ℕ) (body : Run (Unit {0}))
    (keeps : KeepsBoards body) where
  -- The work between taking the lock and letting it go.
  worked-OnBoards :
      (R : Option StageRow → Type 0) (w : World)
      → OnBoards (Board a b R) w
      → OnBoards (Board a b R) (recover sv x ss (body w))
  worked-OnBoards R w g =
      recover-OnBoards (Board a b R) (Board-stable a b R) sv x ss (body w)
        ((keeps (Board a b R) (Board-stable a b R)).at w g)

  mine : Bool
  mine = x.session_id == a && ss == b

  with_lock_other :
      (status : StageStatus) (task : ℕ) (w : World)
      → mine ≡ false
      → OnBoards (Board a b (HasStatus status)) w
      → OnBoards (Board a b (HasStatus status)) (with_lock sv x ss task body w)
  unfolding with_lock let_go mine
  with_lock_other status task w ne g =
      pick (acquire_lock sv.settings w.now x.session_id ss task w.db).0
    where
      B : List StageRow → Type 0
      B = Board a b (HasStatus status)

      w₁ : World
      w₁ = record w { db = (acquire_lock sv.settings w.now x.session_id ss task w.db).1 }

      taken : OnBoards B w₁
      taken = record {
        now =
            acquired-other sv.settings w.now a b x.session_id ss task (HasStatus status) w.db ne
              g.now;
        saved = g.saved;
      }

      gone : OnBoards B (let_go sv x.session_id ss (recover sv x ss (body w₁)))
      gone =
          let w₂ = recover sv x ss (body w₁) in
          let h =
            released-other w₂.now a b x.session_id ss (HasStatus status) w₂.db ne
              (worked-OnBoards (HasStatus status) w₁ taken).now in
          record { now = h; saved = h }

      pick :
          (won : Bool)
          → OnBoards B (if won then let_go sv x.session_id ss (recover sv x ss (body w₁)) else w₁)
      pick true = gone
      pick false = taken

module _ (sv : Services) (x : SessionRow) (ss : ℕ) (body : Run (Unit {0}))
    (keeps : KeepsBoards body) where
  with_lock_mine :
      (status : StageStatus) (task : ℕ) (w : World)
      → OnBoards (Board x.session_id ss (HasStatus status)) w
      → OnBoards (Board x.session_id ss (HasStatus status)) (with_lock sv x ss task body w)
  unfolding with_lock let_go release_lock
  with_lock_mine status task w g =
      let (won, kept, present) =
        acquired-Board sv.settings w.now x.session_id ss task status w.db g.now in
      pick (acquire_lock sv.settings w.now x.session_id ss task w.db).0 won kept present
    where
      w₁ : World
      w₁ = record w { db = (acquire_lock sv.settings w.now x.session_id ss task w.db).1 }

      B : List StageRow → Type 0
      B = Board x.session_id ss (HasStatus status)

      moved :
          StageStatus.idle ≡ status
          → (rows : List StageRow) → Board x.session_id ss (HasStatus StageStatus.idle) rows
          → B rows
      moved e rows = subst (λ st. Board x.session_id ss (HasStatus st) rows) e

      gone :
          StageStatus.idle ≡ status
          → OnBoards (Board x.session_id ss (λ o. has_lock o ≡ true)) w₁
          → OnBoards B (let_go sv x.session_id ss (recover sv x ss (body w₁)))
      gone e held =
          let after =
            worked-OnBoards sv x ss x.session_id ss body keeps (λ o. has_lock o ≡ true) w₁ held in
          let h = moved e _ (released-Board _ x.session_id ss _ after.now) in
          record { now = h; saved = h }

      pick :
          (won : Bool)
          → (won ≡ true → StageStatus.idle ≡ status)
          → (won ≡ false → HasStatus status (lock_cell x.session_id ss w₁.db))
          → Board x.session_id ss (λ o. has_lock o ≡ true) w₁.db.stages
          → OnBoards B (if won then let_go sv x.session_id ss (recover sv x ss (body w₁)) else w₁)
      pick true idle kept present =
          gone (idle refl)
            (record { now = present; saved = (g.saved.0, has_lock_of _ status g.saved.1) })
      pick false idle kept present = record { now = (present.0, kept refl); saved = g.saved }

module _ (sv : Services) (x : SessionRow) (a b : ℕ) (status : StageStatus) where
  abbrev B : World → Type 0
  B = OnBoards (Board a b (HasStatus status))

  pub with_lock-OnBoards :
      (ss : ℕ) (body : Run (Unit {0}))
      → KeepsBoards body
      → (task : ℕ) (w : World) → B w
      → B (with_lock sv x ss task body w)
  unfolding mine
  with_lock-OnBoards ss body keeps task w g = elim (Bool-cases (mine sv x ss a b body keeps)) [
    | inr e ↦ with_lock_other sv x ss a b body keeps status task w e g
    | inl e ↦
        let e₁ : x.session_id ≡ a = ground (arith, e) in
        let e₂ : ss ≡ b = ground (arith, e) in
        let at : ℕ → ℕ → Type 0 = λ c d.
          OnBoards (Board c d (HasStatus status)) w
          → OnBoards (Board c d (HasStatus status)) (with_lock sv x ss task body w) in
        subst (λ d. at a d) e₂
          (subst (λ c. at c ss) e₁ (with_lock_mine sv x ss body keeps status task w)) g
  ]

  process_one-OnBoards :
      (sub : Subsystem) (idx task : ℕ) (w : World) → B w → B (process_one sv x sub idx task w)
  unfolding process_one
  process_one-OnBoards sub idx task =
      with_lock-OnBoards sub.id (run_stages sv x sub idx task)
        (λ P stable. run_stages-Keeps P stable sv x sub idx task) task

  process_each-OnBoards :
      (subs : List Subsystem) (idx task : ℕ) (w : World)
      → B w
      → B (process_each sv x subs idx task w)
  unfolding process_each
  process_each-OnBoards [] idx task w g = g
  process_each-OnBoards (sub ∷ subs) idx task w g =
      process_each-OnBoards subs (suc idx) task _ (process_one-OnBoards sub idx task w g)

-- A run over all supporting systems, whatever the language model answers and whichever stage raises,
-- leaves every lock in the status in which it found it, in the transaction and in what is committed:
-- a lock that it took is given back, and one that somebody else holds stays held. The board has at
-- most one row for each cell.
pub process_all_supporting_systems_locks :
    (sv : Services) (sid task : ℕ) (w : World) (a b : ℕ) (status : StageStatus)
    → UniqueCells w.db
    → UniqueCells w.saved
    → lock_status a b w.db ≡ some status
    → lock_status a b w.saved ≡ some status
    → let w' = process_all_supporting_systems sv sid task w in
      (lock_status a b w'.db ≡ some status) × (lock_status a b w'.saved ≡ some status)
unfolding process_all_supporting_systems
process_all_supporting_systems_locks sv sid task w a b status u u' e e' =
    let g = go (load_session sid w.db) in (g.now.1, g.saved.1)
  where
    start : OnBoards (Board a b (HasStatus status)) w
    start = record { now = (u, e); saved = (u', e') }

    go :
        (o : Option SessionRow)
        → OnBoards (Board a b (HasStatus status)) (elim o [
          | none ↦ w
          | some x ↦
              (decide_session_outcome sv.uuid4
                (ref_of x)
                (process_each sv x x.subsystems 0 task w)).1
        ])
    go none = start
    go (some x) =
        decide_session_outcome-OnBoards _ sv.uuid4 (ref_of x) _
          (process_each-OnBoards sv x a b status x.subsystems 0 task w start)
