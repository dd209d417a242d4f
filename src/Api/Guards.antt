-- ===== src/Api/Guards.antt =====
-- Who the routes of app/api/sessions.py let in, and how a regeneration shuts out an accept.
use tsg.Base.{
  ℕ, ◌≤◌, ◌≡◌, ◌↔◌, refl, sym, ap, subst, ◌∙◌, String, Bool, true, false, ◌&&◌, Option, none, some,
  List, [], ◌∷◌, arith, ◌==◌, nat_eq, if◌then◌else◌, contains, All, find_where, count_where,
  select_where, update_where, count_where-le, find_where_sat, inl, inr, Bool-cases,
}
use tsg.Enums.{RegenGranularity, session_status_eq, workflow_stage_eq, stage_status_eq}
use tsg.Models.{Db, SessionRow}
use tsg.Python.{Builtins}
use tsg.World.{World}
use tsg.Dal.Settings.{Settings}
use tsg.Dal.Sessions.{Result, ok, err, is_session, load_session, get_session}
use tsg.Dal.Stages.{reset_stage_for_regen}
use tsg.Pipeline.Outcome.{cas_session}
use tsg.Pipeline.Accept.{accepted, at_review, accept_session}
use tsg.Pipeline.Accept.Cases.{accept_session_cases}
use tsg.Api.{
  Principal, Response, answers, authorize, get_authorized_session, with_session, close_session,
  on_session,
}
use tsg.Api.Regenerate.{
  Job, is_reviewed_session, regenerating, reserve, regenerate_checked, check_regenerate,
  do_regenerate,
}

module _ {A : Type 0} where
  none_sat :
      (Q : A → Type 0) (k : A → Bool) (xs : List A)
      → count_where k xs ≡ 0
      → All (λ x. k x ≡ true → Q x) xs
  none_sat Q k [] h = tt
  none_sat Q k (x ∷ xs) h =
      ((λ e. absurd (ground (arith, h, e))), none_sat Q k xs (ground (arith, h)))

  -- Where a key has one row at most and one row passes a test that includes the key, it is that row.
  keyed-All :
      (k p : A → Bool)
      → ((x : A) → p x ≡ true → k x ≡ true)
      → (xs : List A) → count_where k xs ≤ 1
      → count_where p xs ≡ 1
      → All (λ x. k x ≡ true → p x ≡ true) xs
  keyed-All k p sub [] u h = tt
  keyed-All k p sub (x ∷ xs) u h = elim (Bool-cases (p x)) [
    | inl e ↦ ((λ _. e), none_sat (λ y. p y ≡ true) k xs (ground (arith, e, u, sub x)))
    | inr e ↦
        let more = keyed-All k p sub xs (ground (arith, u)) (ground (arith, h, e)) in
        ((λ e'. ground (arith, e, e', h, u, count_where-le p k sub xs)), more)
  ]

  All-updated :
      (P Q : A → Type 0) (p : A → Bool) (f : A → A)
      → ((x : A) → P x → Q (if p x then f x else x))
      → (xs : List A) → All P xs
      → All Q (update_where p f xs)
  All-updated P Q p f step [] h = tt
  All-updated P Q p f step (x ∷ xs) h = (step x h.0, All-updated P Q p f step xs h.1)

  All-found :
      (P : A → Type 0) (k : A → Bool) (xs : List A) (x : A)
      → All P xs
      → find_where k xs ≡ some x
      → P x
  All-found P k [] x h e = absurd (ground (arith, e))
  All-found P k (y ∷ xs) x h e = pick (k y) e (All-found P k xs x h.1)
    where
      pick :
          (b : Bool)
          → (if b then some y else find_where k xs) ≡ some x
          → (find_where k xs ≡ some x → P x)
          → P x
      pick true e' more = let same : y ≡ x = cc in subst P same h.0
      pick false e' more = more e'

-- Every row of the session is away from the review barrier.
abbrev Away : ℕ → SessionRow → Type 0
Away sid r = is_session sid r ≡ true → at_review r ≡ false

module _ (sid now : ℕ) (granularity : RegenGranularity) where
  -- A row that leaves REVIEW, and one that was not there.
  regenerating-Away :
      (r : SessionRow)
      → (is_session sid r ≡ true → is_reviewed_session sid r ≡ true)
      → Away sid (if is_reviewed_session sid r then regenerating granularity now r else r)
  regenerating-Away r h = elim (Bool-cases (is_reviewed_session sid r)) [
    | inl e ↦ rw e (λ k. ground arith)
    | inr e ↦ rw e (λ k. ground (arith, e, h k))
  ]

  cas_session-Away :
      (w : World)
      → count_where (is_session sid) w.db.sessions ≤ 1
      → (cas_session (is_reviewed_session sid) (regenerating granularity now) w).0 ≡ true
      → All
          (Away sid)
          (cas_session (is_reviewed_session sid) (regenerating granularity now) w).1.db.sessions
  cas_session-Away w u won =
      All-updated (λ r. is_session sid r ≡ true → is_reviewed_session sid r ≡ true) (Away sid)
        (is_reviewed_session sid) (regenerating granularity now) regenerating-Away w.db.sessions
        (keyed-All (is_session sid) (is_reviewed_session sid) (λ r e. ground (arith, e))
          w.db.sessions u (ground (arith, won)))

authorized_lem :
    (sid : ℕ) (p : Principal) (db : Db) (x : SessionRow)
    → get_authorized_session sid p db ≡ ok x
    → (load_session sid db ≡ some x)
      × (x.session_id ≡ sid)
      × (contains p.entities x.entity_id ≡ true)
unfolding get_authorized_session load_session
authorized_lem sid p db x = go (load_session sid db) refl
  where
    go :
        (o : Option SessionRow)
        → load_session sid db ≡ o
        → authorize p o ≡ ok x
        → (load_session sid db ≡ some x)
          × (x.session_id ≡ sid)
          × (contains p.entities x.entity_id ≡ true)
    go none e h = absurd (ground (arith, h))
    go (some y) e h = elim (Bool-cases (contains p.entities y.entity_id)) [
      | inr outside ↦ absurd (ground (arith, h, outside))
      | inl in_scope ↦
          let same : y ≡ x = ground (arith, h, in_scope) in
          let e' : find_where (is_session sid) db.sessions ≡ some x = e ∙ ap some same in
          let here = find_where_sat (is_session sid) db.sessions e' in
          (
            e',
            ground (arith, here),
            subst (λ z. contains p.entities z.entity_id ≡ true) same in_scope,
          )
    ]

module _ (sid ss : ℕ) (granularity : RegenGranularity) (resolve : Db → Result (Option (List ℕ)))
    (note : Option String) (p : Principal) where
  answered-Away :
      (w : World) (job : Job)
      → count_where (is_session sid) w.db.sessions ≤ 1
      → (do_regenerate sid ss granularity resolve note p w).0 ≡ answers job
      → let w' = (do_regenerate sid ss granularity resolve note p w).1 in
        All (Away sid) w'.db.sessions × (w'.saved ≡ w'.db)
  unfolding do_regenerate with_session reset_stage_for_regen
  answered-Away w job u = found (get_authorized_session sid p w.db) refl
    where
      Ends : Response Job × World → Type 0
      Ends (answer, w') = answer ≡ answers job → All (Away sid) w'.db.sessions × (w'.saved ≡ w'.db)

      reserved :
          (x : SessionRow) (ids : Option (List ℕ)) (r : Bool × World)
          → (r.0 ≡ true → All (Away sid) r.1.db.sessions)
          → Ends (close_session (reserve x ss granularity ids note r))
      reserved x ids (false, w₁) away h = absurd (ground (arith, h))
      reserved x ids (true, w₁) away h = (away refl, refl)

      checked :
          (x : SessionRow)
          → x.session_id ≡ sid
          → (r : Result (Option (List ℕ)))
          → Ends (close_session (regenerate_checked x ss granularity note r w))
      checked x same (err e) h = absurd (ground (arith, h))
      checked x same (ok ids) h =
          reserved x ids
            (cas_session (is_reviewed_session x.session_id) (regenerating granularity w.now) w)
            (subst
              (λ i.
                (cas_session (is_reviewed_session i) (regenerating granularity w.now) w).0 ≡ true
                → All (Away sid)
                    (cas_session (is_reviewed_session i) (regenerating granularity w.now)
                      w).1.db.sessions)
              (sym same) (cas_session-Away sid w.now granularity w u))
            h

      found :
          (r : Result SessionRow)
          → get_authorized_session sid p w.db ≡ r
          → Ends (
              close_session (
                on_session r
                  (λ x w'.
                    regenerate_checked x ss granularity note
                      (check_regenerate x ss granularity resolve w'.db)
                      w')
                  w))
      found (err e) k h = absurd (ground (arith, h))
      found (ok x) k h =
          checked x (authorized_lem sid p w.db x k).1
            (check_regenerate x ss granularity resolve w.db) h

  -- No regeneration starts off the barrier.
  refused_by-Away :
      (w : World) (job : Job)
      → All (Away sid) w.db.sessions
      → ¬ ((do_regenerate sid ss granularity resolve note p w).0 ≡ answers job)
  unfolding do_regenerate with_session load_session check_regenerate
  refused_by-Away w job away = found (get_authorized_session sid p w.db) refl
    where
      found :
          (r : Result SessionRow)
          → get_authorized_session sid p w.db ≡ r
          → ¬ (
              (close_session (
                on_session r
                  (λ x w'.
                    regenerate_checked x ss granularity note
                      (check_regenerate x ss granularity resolve w'.db)
                      w')
                  w)).0
              ≡ answers job)
      found (err e) k h = ground (arith, h)
      found (ok x) k h =
          let (loaded, same, _) = authorized_lem sid p w.db x k in
          let off : at_review x ≡ false =
            All-found (Away sid) (is_session sid) w.db.sessions x away loaded
              (ground (arith, same)) in
          ground (arith, h, off)

-- `Away` is a fact of the rows of the session alone.
Away-select :
    (sid : ℕ) (xs : List SessionRow)
    → All (Away sid) xs ↔ All (λ r. at_review r ≡ false) (select_where (is_session sid) xs)
Away-select sid [] = ((λ h. tt), λ h. tt)
Away-select sid (x ∷ xs) =
    let more = Away-select sid xs in
    elim (Bool-cases (is_session sid x)) [
      | inl e ↦ (rw e (λ h. (h.0 refl, more.0 h.1)), rw e (λ h. ((λ k. h.0), more.1 h.1)))
      | inr e ↦ (rw e (λ h. more.0 h.1), rw e (λ h. ((λ k. absurd (ground (arith, k))), more.1 h)))
    ]

-- A regeneration that was let in is committed, and in every later world in which the rows of the session
-- are as the request left them, whatever else has changed (cells, locks, results, clock), it shuts
-- out every accept of the session, by whomever and of whatever subset, and every other regeneration
-- of it, of whatever supporting system and granularity. Session ids are unique.
pub do_regenerate_excludes :
    (sid ss : ℕ) (granularity : RegenGranularity) (resolve : Db → Result (Option (List ℕ)))
    (note : Option String) (p : Principal) (w later : World) (job : Job)
    → count_where (is_session sid) w.db.sessions ≤ 1
    → (do_regenerate sid ss granularity resolve note p w).0 ≡ answers job
    → select_where (is_session sid) later.db.sessions
      ≡ select_where
          (is_session sid)
          (do_regenerate sid ss granularity resolve note p w).1.db.sessions
    → let w' = (do_regenerate sid ss granularity resolve note p w).1 in
      (w'.saved ≡ w'.db)
      × ((s : Settings) (py : Builtins) (uuid4 identity : ℕ → ℕ) (entity : ℕ) (user : Option ℕ)
            (subset : Option (List ℕ))
          → ¬ ((accept_session s py uuid4 identity sid entity user subset later).0 ≡ accepted))
      × ((ss' : ℕ) (granularity' : RegenGranularity) (resolve' : Db → Result (Option (List ℕ)))
            (note' : Option String) (p' : Principal) (job' : Job)
          → ¬ ((do_regenerate sid ss' granularity' resolve' note' p' later).0 ≡ answers job'))
unfolding get_session
do_regenerate_excludes sid ss granularity resolve note p w later job u h same =
    let (away', saved) = answered-Away sid ss granularity resolve note p w job u h in
    let away : All (Away sid) later.db.sessions = (Away-select sid later.db.sessions).1 (
      subst (All (λ r. at_review r ≡ false)) (sym same) (
        (Away-select sid (do_regenerate sid ss granularity resolve note p w).1.db.sessions).0
          away')) in
    let off : (entity : ℕ) (x : SessionRow)
        → get_session sid entity later.db ≡ some x
        → at_review x ≡ false =
      λ entity x found.
        let here =
          find_where_sat (λ r. r.session_id == sid && r.entity_id == entity) later.db.sessions
            found in
        All-found (Away sid) (λ r. r.session_id == sid && r.entity_id == entity) later.db.sessions x
          away found (ground (arith, here)) in
    (
      saved,
      λ s py uuid4 identity entity user subset.
          accept_session_cases s py uuid4 identity sid entity user subset later
            (λ answer v. ¬ (answer ≡ accepted)) (λ e k. ground (arith, k))
            (λ x found gate taken w₁ t k. ground (arith, k))
            (λ x found gate taken w₁ t e m k. ground (arith, k))
            (λ x found gate taken w₁ t m k. ground (arith, gate, off entity x found)),
      λ ss' granularity' resolve' note' p' job'.
          refused_by-Away sid ss' granularity' resolve' note' p' later job' away,
    )
