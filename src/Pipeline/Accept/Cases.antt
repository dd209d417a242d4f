-- ===== src/Pipeline/Accept/Cases.antt =====
-- The ways in which `accept_session` of app/pipeline/accept.py ends.
use tsg.Base.{
  ℕ, ◌≡◌, refl, Bool, true, false, ◌&&◌, ◌==◌, nat_eq, arith, find_where_sat, Option, none, some,
  List, [],
}
use tsg.Enums.{SubsystemLevel}
use tsg.Models.{Db, SessionRow}
use tsg.Python.{Builtins}
use tsg.World.{World}
use tsg.Dal.Settings.{Settings}
use tsg.Dal.Sessions.{get_session}
use tsg.Dal.Stages.{subsystem_ids_at_level}
use tsg.Pipeline.Locks.{take_locks, release_all}
use tsg.Pipeline.Accept.{
  Refusal, Answer, accepted, refused, entity_forbidden, accept_conflict, at_review,
  reviewed_subsystems, assert_masters_active, approve, settle_masters, under_locks, review_at,
  review_found, accept_session,
}

-- The `_LOCK` rows of the session, how taking them ends, and the subsystems under review.
abbrev pub locks_of : World → SessionRow → List ℕ
locks_of w x = subsystem_ids_at_level x.session_id SubsystemLevel.lock none w.db

abbrev pub taken_by : Settings → World → SessionRow → Bool × List ℕ × World
taken_by s w x = take_locks s x.session_id (locks_of w x) [] w

abbrev pub good_of : World → SessionRow → List ℕ
good_of w x = reviewed_subsystems x.session_id w.db

pub found_id :
    (sid entity : ℕ) (db : Db) (x : SessionRow)
    → get_session sid entity db ≡ some x
    → x.session_id ≡ sid
unfolding get_session
found_id sid entity db x e =
    let h = find_where_sat (λ r. r.session_id == sid && r.entity_id == entity) db.sessions e in
    ground (arith, h)

module _ (s : Settings) (py : Builtins) (uuid4 identity : ℕ → ℕ) (sid entity : ℕ) (user : Option ℕ)
    (subset : Option (List ℕ)) (w : World) where
  -- A property of the answer and the world holds if it holds where a gate refuses, where a lock is
  -- held, where a master is inactive, and where the review is written.
  pub accept_session_cases :
      (R : Answer → World → Type 0)
      → ((e : Refusal) → R (refused e) w)
      → ((x : SessionRow)
          → get_session sid entity w.db ≡ some x
          → at_review x ≡ true
          → (taken : List ℕ) (w₁ : World) → taken_by s w x ≡ (false, taken, w₁)
          → R (refused accept_conflict) (release_all x.session_id taken w₁))
      → ((x : SessionRow)
          → get_session sid entity w.db ≡ some x
          → at_review x ≡ true
          → (taken : List ℕ) (w₁ : World) → taken_by s w x ≡ (true, taken, w₁)
          → (e : Refusal) → assert_masters_active x.session_id (good_of w x) w₁.db ≡ some e
          → R (refused e) (release_all x.session_id taken w₁))
      → ((x : SessionRow)
          → get_session sid entity w.db ≡ some x
          → at_review x ≡ true
          → (taken : List ℕ) (w₁ : World) → taken_by s w x ≡ (true, taken, w₁)
          → assert_masters_active x.session_id (good_of w x) w₁.db ≡ none
          → R accepted (
              release_all x.session_id taken
                (approve s py uuid4 identity x (good_of w x) user subset w₁)))
      → let (answer, w') = accept_session s py uuid4 identity sid entity user subset w in
        R answer w'
  unfolding accept_session under_locks
  accept_session_cases R stops held dead fine = found (get_session sid entity w.db) refl
    where
      Ends : Answer × World → Type 0
      Ends (answer, w') = R answer w'

      masters :
          (x : SessionRow)
          → get_session sid entity w.db ≡ some x
          → at_review x ≡ true
          → (taken : List ℕ) (w₁ : World) → taken_by s w x ≡ (true, taken, w₁)
          → (o : Option Refusal) → assert_masters_active x.session_id (good_of w x) w₁.db ≡ o
          → let (answer, w') =
              settle_masters s py uuid4 identity x (good_of w x) user subset o w₁ in
            R answer (release_all x.session_id taken w')
      masters x e g taken w₁ t none m = fine x e g taken w₁ t m
      masters x e g taken w₁ t (some f) m = dead x e g taken w₁ t f m

      locks :
          (x : SessionRow)
          → get_session sid entity w.db ≡ some x
          → at_review x ≡ true
          → (r : Bool × List ℕ × World) → taken_by s w x ≡ r
          → Ends (under_locks s py uuid4 identity x (good_of w x) user subset r)
      locks x e g (false, taken, w₁) t = held x e g taken w₁ t
      locks x e g (true, taken, w₁) t =
          masters x e g taken w₁ t (assert_masters_active x.session_id (good_of w x) w₁.db) refl

      gate :
          (x : SessionRow)
          → get_session sid entity w.db ≡ some x
          → (b : Bool) → at_review x ≡ b
          → Ends (review_at s py uuid4 identity x user subset w b)
      gate x e false g = stops accept_conflict
      gate x e true g = locks x e g (taken_by s w x) refl

      found :
          (o : Option SessionRow)
          → get_session sid entity w.db ≡ o
          → Ends (review_found s py uuid4 identity user subset w o)
      found none e = stops entity_forbidden
      found (some x) e = gate x e (at_review x) refl
