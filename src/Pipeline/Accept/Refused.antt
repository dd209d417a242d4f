-- ===== src/Pipeline/Accept/Refused.antt =====
-- What `accept_session` of app/pipeline/accept.py leaves where it refuses.
use tsg.Base.{
  ℕ, ◌≡◌, refl, sym, ap, subst, ◌∙◌, Bool, true, false, not, ◌&&◌, ◌==◌, select_where, update_where,
  find_where_sat, Option, some, List, [], ◌∷◌, ◌++◌, arith, nat_eq, if◌then◌else◌,
}
use tsg.Enums.{SubsystemLevel, level_eq, stage_status_eq}
use tsg.Models.{Db, SessionRow, StageRow}
use tsg.Python.{Builtins}
use tsg.World.{World}
use tsg.Dal.Settings.{Settings}
use tsg.Dal.Sessions.{get_session}
use tsg.Dal.Stages.{acquire_lock, release_lock, locked, released}
use tsg.Pipeline.Locks.{take_locks, release_all}
use tsg.Pipeline.Accept.Cases.{locks_of, taken_by, accept_session_cases}
use tsg.Pipeline.Accept.{Refusal, refused, accept_session}

-- The second world is the first but for its board.
abbrev pub OnlyBoard : World → World → Type 0
OnlyBoard w w' = record w' { db = record w'.db { stages = w.db.stages } } ≡ w

abbrev with_board : List StageRow → World → World
with_board rows w = record w { db = record w.db { stages = rows } }

OnlyBoard-trans : (u v w : World) → OnlyBoard u v → OnlyBoard v w → OnlyBoard u w
OnlyBoard-trans u v w h k = ap (with_board u.db.stages) k ∙ h

pub take_locks-OnlyBoard :
    (s : Settings) (sid : ℕ) (subs acquired : List ℕ) (w : World)
    → let (all_ours, taken, w') = take_locks s sid subs acquired w in OnlyBoard w w'
unfolding take_locks acquire_lock
take_locks-OnlyBoard s sid [] acquired w = refl
take_locks-OnlyBoard s sid (ss ∷ rest) acquired w = pick (acquire_lock s w.now sid ss sid w.db).0 (
    OnlyBoard-trans w (record w { db = (acquire_lock s w.now sid ss sid w.db).1 })
      (take_locks s sid rest (acquired ++ ss ∷ [])
        (record w { db = (acquire_lock s w.now sid ss sid w.db).1 })).2
      refl
      (take_locks-OnlyBoard s sid rest (acquired ++ ss ∷ [])
        (record w { db = (acquire_lock s w.now sid ss sid w.db).1 })))
  where
    w₁ : World
    w₁ = record w { db = (acquire_lock s w.now sid ss sid w.db).1 }

    pick :
        (won : Bool)
        → (let (all_ours, taken, w') = take_locks s sid rest (acquired ++ ss ∷ []) w₁ in
            OnlyBoard w w')
        → let (all_ours, taken, w') =
            if won then take_locks s sid rest (acquired ++ ss ∷ []) w₁ else (false, acquired, w₁) in
          OnlyBoard w w'
    pick true h = h
    pick false h = refl

pub release_all-OnlyBoard :
    (sid : ℕ) (ids : List ℕ) (w : World) → OnlyBoard w (release_all sid ids w)
unfolding release_all release_lock
release_all-OnlyBoard sid [] w = refl
release_all-OnlyBoard sid (ss ∷ rest) w =
    OnlyBoard-trans w (record w { db = release_lock w.now sid ss w.db })
      (release_all sid rest (record w { db = release_lock w.now sid ss w.db })) refl
      (release_all-OnlyBoard sid rest (record w { db = release_lock w.now sid ss w.db }))

-- Not a lock row of the session.
abbrev pub is_elsewhere : ℕ → StageRow → Bool
is_elsewhere sid r = not (r.session_id == sid && r.level == SubsystemLevel.lock)

-- The second world is the first but for lock rows of the session.
abbrev pub OnlyLocks : ℕ → World → World → Type 0
OnlyLocks sid w w' =
    OnlyBoard w w'
    × (select_where (is_elsewhere sid) w'.db.stages ≡ select_where (is_elsewhere sid) w.db.stages)

-- A statement on rows that are not selected, and stay so.
select_where-update_where_ne :
    {A : Type 0} (q p : A → Bool) (f : A → A)
    → ((x : A) → p x ≡ true → (q x ≡ false) × (q (f x) ≡ false))
    → (xs : List A) → select_where q (update_where p f xs) ≡ select_where q xs
select_where-update_where_ne q p f h [] = refl
select_where-update_where_ne q p f h (x ∷ xs) =
    ground (arith, h x, select_where-update_where_ne q p f h xs)

acquire_lock_elsewhere :
    (s : Settings) (now sid ss task : ℕ) (db : Db)
    → select_where (is_elsewhere sid) (acquire_lock s now sid ss task db).1.stages
      ≡ select_where (is_elsewhere sid) db.stages
unfolding acquire_lock
acquire_lock_elsewhere s now sid ss task db =
    select_where-update_where_ne (is_elsewhere sid) _ (locked s now task)
      (λ r h. (ground (arith, h), ground (arith, h))) db.stages

release_lock_elsewhere :
    (now sid ss : ℕ) (db : Db)
    → select_where (is_elsewhere sid) (release_lock now sid ss db).stages
      ≡ select_where (is_elsewhere sid) db.stages
unfolding release_lock
release_lock_elsewhere now sid ss db =
    select_where-update_where_ne (is_elsewhere sid) _ (released now)
      (λ r h. (ground (arith, h), ground (arith, h))) db.stages

take_locks_elsewhere :
    (s : Settings) (sid : ℕ) (subs acquired : List ℕ) (w : World)
    → select_where (is_elsewhere sid) (take_locks s sid subs acquired w).2.db.stages
      ≡ select_where (is_elsewhere sid) w.db.stages
unfolding take_locks
take_locks_elsewhere s sid [] acquired w = refl
take_locks_elsewhere s sid (ss ∷ rest) acquired w =
    pick (acquire_lock s w.now sid ss sid w.db).0
      (take_locks_elsewhere s sid rest (acquired ++ ss ∷ []) w₁ ∙ first)
  where
    w₁ : World
    w₁ = record w { db = (acquire_lock s w.now sid ss sid w.db).1 }

    Same : Bool × List ℕ × World → Type 0
    Same r =
        select_where (is_elsewhere sid) r.2.db.stages ≡ select_where (is_elsewhere sid) w.db.stages

    first : Same (false, acquired, w₁)
    first = acquire_lock_elsewhere s w.now sid ss sid w.db

    pick :
        (won : Bool)
        → Same (take_locks s sid rest (acquired ++ ss ∷ []) w₁)
        → Same
            (if won then take_locks s sid rest (acquired ++ ss ∷ []) w₁ else (false, acquired, w₁))
    pick true h = h
    pick false h = first

release_all_elsewhere :
    (sid : ℕ) (ids : List ℕ) (w : World)
    → select_where (is_elsewhere sid) (release_all sid ids w).db.stages
      ≡ select_where (is_elsewhere sid) w.db.stages
unfolding release_all
release_all_elsewhere sid [] w = refl
release_all_elsewhere sid (ss ∷ rest) w =
    release_all_elsewhere sid rest (record w { db = release_lock w.now sid ss w.db })
    ∙ release_lock_elsewhere w.now sid ss w.db

module _ (s : Settings) (py : Builtins) (uuid4 identity : ℕ → ℕ) where
  -- An accept that is refused, for whichever reason, has changed nothing but lock rows of the session: no
  -- other cell of the board, no session, no output, no library row, no audit row and nothing that
  -- is committed, and no event was published.
  pub accept_session_refused :
      (sid entity : ℕ) (user : Option ℕ) (subset : Option (List ℕ)) (w : World) (e : Refusal)
      → (accept_session s py uuid4 identity sid entity user subset w).0 ≡ refused e
      → OnlyLocks sid w (accept_session s py uuid4 identity sid entity user subset w).1
  unfolding get_session
  accept_session_refused sid entity user subset w e =
      accept_session_cases s py uuid4 identity sid entity user subset w
        (λ answer w'. answer ≡ refused e → OnlyLocks sid w w') (λ f h. (refl, refl))
        (λ x found gate taken w₁ t h. given_back x (is_found x found) taken w₁ (ap (λ r. r.2) t))
        (λ x found gate taken w₁ t f m h.
          given_back x (is_found x found) taken w₁ (ap (λ r. r.2) t))
        (λ x found gate taken w₁ t m h. absurd (ground (arith, h)))
    where
      is_found : (x : SessionRow) → get_session sid entity w.db ≡ some x → x.session_id ≡ sid
      is_found x found = ground (
        arith,
        find_where_sat (λ r. r.session_id == sid && r.entity_id == entity) w.db.sessions found,
      )

      given_back :
          (x : SessionRow)
          → x.session_id ≡ sid
          → (taken : List ℕ) (w₁ : World) → (taken_by s w x).2 ≡ w₁
          → OnlyLocks sid w (release_all x.session_id taken w₁)
      given_back x same taken w₁ t =
          subst (λ i. OnlyLocks i w (release_all x.session_id taken w₁)) same
            (
              OnlyBoard-trans w w₁ (release_all x.session_id taken w₁)
                  (subst (OnlyBoard w) t (take_locks-OnlyBoard s x.session_id (locks_of w x) [] w))
                  (release_all-OnlyBoard x.session_id taken w₁),
              release_all_elsewhere x.session_id taken w₁
                  ∙ ap (λ u. select_where (is_elsewhere x.session_id) u.db.stages) (sym t)
                  ∙ take_locks_elsewhere s x.session_id (locks_of w x) [] w,
            )
