-- ===== src/Pipeline/Locks/Held.antt =====
-- One lock of the board while the loops of app/pipeline/accept.py and app/pipeline/reaper.py take locks
-- and give them back.
use tsg.Base.{
  ℕ, ◌≡◌, refl, subst, Bool, true, false, ◌&&◌, ◌||◌, Option, List, [], ◌∷◌, ◌++◌, arith, ◌==◌,
  if◌then◌else◌, nat_eq, contains, ◌⊎◌, inl, inr, Bool-cases,
}
use tsg.Enums.{StageStatus, level_eq}
use tsg.Models.{StageRow}
use tsg.Dal.Settings.{Settings}
use tsg.Dal.Stages.{acquire_lock, release_lock}
use tsg.Dal.Stages.Mutex.{
  Board, HasStatus, has_lock, has_lock_of, acquired-other, released-other, acquired-mine,
  acquired-present, released-mine,
}
use tsg.World.{World}
use tsg.Pipeline.Frame.{OnBoards}
use tsg.Pipeline.Locks.{take_locks, release_all}

abbrev pub Present : Option StageRow → Type 0
Present o = has_lock o ≡ true

module _ (a b sid : ℕ) where
  unfoldable pub mine : List ℕ → Bool
  mine ids = sid == a && contains ids b

  release_idle :
      (ids : List ℕ) (w : World)
      → Board a b (HasStatus StageStatus.idle) w.db.stages
      → Board a b (HasStatus StageStatus.idle) (release_all sid ids w).db.stages
  unfolding release_all
  release_idle [] w g = g
  release_idle (ss ∷ rest) w g =
      release_idle rest (record w { db = release_lock w.now sid ss w.db })
        (elim (Bool-cases (sid == a && ss == b)) [
          | inr e ↦ released-other w.now a b sid ss (HasStatus StageStatus.idle) w.db e g
          | inl e ↦ released-mine w.now a b sid ss w.db e (g.0, has_lock_of _ StageStatus.idle g.1)
        ])

  release_other :
      (R : Option StageRow → Type 0) (ids : List ℕ) (w : World)
      → mine ids ≡ false
      → Board a b R w.db.stages
      → Board a b R (release_all sid ids w).db.stages
  unfolding release_all mine
  release_other R [] w e g = g
  release_other R (ss ∷ rest) w e g =
      release_other R rest (record w { db = release_lock w.now sid ss w.db }) (ground (arith, e))
        (released-other w.now a b sid ss R w.db (ground (arith, e)) g)

  release_mine :
      (ids : List ℕ) (w : World)
      → mine ids ≡ true
      → Board a b Present w.db.stages
      → Board a b (HasStatus StageStatus.idle) (release_all sid ids w).db.stages
  unfolding release_all mine
  release_mine [] w e g = absurd (ground (arith, e))
  release_mine (ss ∷ rest) w e g = elim (Bool-cases (sid == a && ss == b)) [
    | inr no_lock ↦
        release_mine rest (record w { db = release_lock w.now sid ss w.db })
          (ground (arith, e, no_lock)) (released-other w.now a b sid ss Present w.db no_lock g)
    | inl same ↦
        release_idle rest (record w { db = release_lock w.now sid ss w.db })
          (released-mine w.now a b sid ss w.db same g)
  ]

  -- How the lock `(a, b)` stands once the locks of `acquired` are ours.
  unfoldable pub Held : StageStatus → List ℕ → World → Type 0
  Held status acquired w =
      ((mine acquired ≡ true) × (StageStatus.idle ≡ status) × OnBoards (Board a b Present) w)
      ⊎ ((mine acquired ≡ false) × OnBoards (Board a b (HasStatus status)) w)

  mine_append :
      (ids : List ℕ) (ss : ℕ) → mine (ids ++ ss ∷ []) ≡ (mine ids || (sid == a && ss == b))
  unfolding mine
  mine_append [] ss = ground arith
  mine_append (i ∷ is) ss = ground (arith, mine_append is ss)

  module _ (s : Settings) (status : StageStatus) where
    took : ℕ → World → World
    took ss w = record w { db = (acquire_lock s w.now sid ss sid w.db).1 }

    -- Another lock is taken or not.
    took_other :
        (acquired : List ℕ) (ss : ℕ) (w : World)
        → (sid == a && ss == b) ≡ false
        → Held status acquired w
        → Held status acquired (took ss w) × Held status (acquired ++ ss ∷ []) (took ss w)
    unfolding took Held
    took_other acquired ss w e (inl (m, i, g)) =
        let h : OnBoards (Board a b Present) (took ss w) = record {
          now = acquired-other s w.now a b sid ss sid Present w.db e g.now;
          saved = g.saved;
        } in
        (inl (m, i, h), inl (rw (mine_append acquired ss, m) refl, i, h))
    took_other acquired ss w e (inr (m, g)) =
        let h : OnBoards (Board a b (HasStatus status)) (took ss w) = record {
          now = acquired-other s w.now a b sid ss sid (HasStatus status) w.db e g.now;
          saved = g.saved;
        } in
        (inr (m, h), inr (rw (mine_append acquired ss, m, e) refl, h))

    -- This lock is taken, or not.
    took_mine :
        (acquired : List ℕ) (ss : ℕ) (w : World)
        → (sid == a && ss == b) ≡ true
        → Held status acquired w
        → (won : Bool) → (acquire_lock s w.now sid ss sid w.db).0 ≡ won
        → Held status (if won then acquired ++ ss ∷ [] else acquired) (took ss w)
    unfolding took Held
    took_mine acquired ss w e (inl (m, i, g)) true eq = inl (
      rw (mine_append acquired ss, m) refl,
      i,
      record { now = acquired-present s w.now a b sid ss sid w.db e g.now; saved = g.saved },
    )
    took_mine acquired ss w e (inl (m, i, g)) false eq = inl (
      m,
      i,
      record { now = acquired-present s w.now a b sid ss sid w.db e g.now; saved = g.saved },
    )
    took_mine acquired ss w e (inr (m, g)) true eq =
        let (idle, kept, present) = acquired-mine s w.now a b sid ss sid status w.db e g.now in
        inl (
          rw (mine_append acquired ss, m, e) refl,
          idle eq,
          record { now = present; saved = (g.saved.0, has_lock_of _ status g.saved.1) },
        )
    took_mine acquired ss w e (inr (m, g)) false eq =
        let (idle, kept, present) = acquired-mine s w.now a b sid ss sid status w.db e g.now in
        inr (m, record { now = (present.0, kept eq); saved = g.saved })

    took-Held :
        (acquired : List ℕ) (ss : ℕ) (w : World)
        → Held status acquired w
        → (won : Bool) → (acquire_lock s w.now sid ss sid w.db).0 ≡ won
        → Held status (if won then acquired ++ ss ∷ [] else acquired) (took ss w)
    took-Held acquired ss w h won eq = elim (Bool-cases (sid == a && ss == b)) [
      | inl e ↦ took_mine acquired ss w e h won eq
      | inr e ↦ pick won (took_other acquired ss w e h)
    ]
      where
        pick :
            (won : Bool)
            → Held status acquired (took ss w) × Held status (acquired ++ ss ∷ []) (took ss w)
            → Held status (if won then acquired ++ ss ∷ [] else acquired) (took ss w)
        pick true (x, y) = y
        pick false (x, y) = x

  module _ (s : Settings) (status : StageStatus) where
    pub take_locks-Held :
        (subs acquired : List ℕ) (w : World)
        → Held status acquired w
        → let (all_ours, taken, w') = take_locks s sid subs acquired w in Held status taken w'
    unfolding take_locks took
    take_locks-Held [] acquired w h = h
    take_locks-Held (ss ∷ rest) acquired w h =
        pick (acquire_lock s w.now sid ss sid w.db).0 (took-Held s status acquired ss w h _ refl)
          (take_locks-Held rest (acquired ++ ss ∷ []) (took s status ss w))
      where
        w₁ : World
        w₁ = took s status ss w

        pick :
            (won : Bool)
            → Held status (if won then acquired ++ ss ∷ [] else acquired) w₁
            → (Held status (acquired ++ ss ∷ []) w₁
                → let (all_ours, taken, w') = take_locks s sid rest (acquired ++ ss ∷ []) w₁ in
                  Held status taken w')
            → let (all_ours, taken, w') =
                if won
                then take_locks s sid rest (acquired ++ ss ∷ []) w₁
                else (false, acquired, w₁) in
              Held status taken w'
        pick true h more = more h
        pick false h more = h

    pub let_all_go :
        (acquired : List ℕ) (w : World)
        → Held status acquired w
        → Board a b (HasStatus status) (release_all sid acquired w).db.stages
    unfolding Held
    let_all_go acquired w (inl (m, i, g)) =
        subst (λ st. Board a b (HasStatus st) (release_all sid acquired w).db.stages) i
          (release_mine acquired w m g.now)
    let_all_go acquired w (inr (m, g)) = release_other (HasStatus status) acquired w m g.now
