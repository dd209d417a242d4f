-- ===== src/Pipeline/Outcome/Cases.antt =====
-- `decide_session_outcome` of app/pipeline/tasks.py by the three tests that it makes on the board.
use tsg.Base.{
  ℕ, ◌≤◌, ◌≡◌, ◌≢◌, ◌↔◌, inl, inr, refl, sym, ◌∙◌, Bool, true, false, Option, none, some, List, [],
  ◌∷◌, ◌==◌, if◌then◌else◌, any, All, arith, count_where, Bool-cases, count_where_keyed,
  update_where_none, find_where-update_where,
}
use tsg.Enums.{StageStatus, session_status_eq, workflow_stage_eq, stage_status_eq, stage_status_iff}
use tsg.Models.{Db, SessionRow}
use tsg.Dal.Sessions.{is_session, cancelled_row, load_session}
use tsg.Dal.Stages.{is_in_flight}
use tsg.World.{World, SessionRef}
use tsg.Pipeline.Outcome.{
  Outcome, review, cancelled, may_finish, review_row, send_to_review, mark_session_failed, decide,
  cas_session, report,
}

-- A session id names at most one row.
abbrev pub UniqueSession : ℕ → Db → Type 0
UniqueSession sid db = count_where (is_session sid) db.sessions ≤ 1

-- A stage that no worker will move by itself.
abbrev pub Settled : StageStatus → Type 0
Settled t = (t ≢ StageStatus.idle) × (t ≢ StageStatus.running)

abbrev pub Lacks : StageStatus → List StageStatus → Type 0
Lacks t = All (λ x. x ≢ t)

Settled-iff : (xs : List StageStatus) → (any is_in_flight xs ≡ false) ↔ All Settled xs
Settled-iff [] = (λ _. tt, λ _. refl)
Settled-iff (x ∷ xs) = (
  λ h. ((λ e. ground arith, λ e. ground arith), (Settled-iff xs).0 (ground arith)),
  λ h. ground (arith, (Settled-iff xs).1 h.1, h.0),
)

Lacks-iff : (t : StageStatus) (xs : List StageStatus) → (any (λ x. x == t) xs ≡ false) ↔ Lacks t xs
Lacks-iff t [] = (λ _. tt, λ _. refl)
Lacks-iff t (x ∷ xs) = (
  λ h. (λ e. ground (arith, stage_status_iff x t), (Lacks-iff t xs).0 (ground arith)),
  λ h. ground (arith, (Lacks-iff t xs).1 h.1, h.0, stage_status_iff x t),
)

has_iff : (t : StageStatus) (xs : List StageStatus) → (any (λ x. x == t) xs ≡ true) ↔ (¬ Lacks t xs)
has_iff t xs = (
  λ h l. cc (h, (Lacks-iff t xs).1 l),
  λ n. elim (Bool-cases (any (λ x. x == t) xs)) [
    | inl y ↦ y
    | inr z ↦ absurd (n ((Lacks-iff t xs).0 z))
  ],
)

-- A statement that hits no row leaves the world as it is.
cas_session_none :
    (p : SessionRow → Bool) (f : SessionRow → SessionRow) (w : World)
    → count_where p w.db.sessions ≡ 0
    → cas_session p f w ≡ (false, w)
cas_session_none p f w h = rw (update_where_none p f w.db.sessions h, h)

module _ (uuid4 : ℕ → ℕ) (s : SessionRef) (w : World) where
  open s use {session_id}

  pub decide_done :
      (xs : List StageStatus)
      → count_where (may_finish session_id) w.db.sessions ≡ 0
      → decide uuid4 s xs w ≡ (none, w)
  unfolding decide send_to_review mark_session_failed
  decide_done [] h = refl
  decide_done (x ∷ xs) h = ground (
    arith,
    cas_session_none (may_finish session_id) (review_row w.now) w h,
    cas_session_none (may_finish session_id) (cancelled_row w.now) w h,
  )

module _ (s : SessionRef) (w : World) (r : SessionRow)
    (found : load_session s.session_id w.db ≡ some r)
    (unique : UniqueSession s.session_id w.db) where
  open s use {session_id}

  pub finishers :
      count_where (may_finish session_id) w.db.sessions ≡ (if may_finish session_id r then 1 else 0)
  unfolding load_session
  finishers = ground (
    arith,
    found,
    count_where_keyed (is_session session_id) (may_finish session_id) (λ x h. ground arith)
        w.db.sessions unique,
  )

  -- What the compare-and-set of a running session answers and leaves.
  pub cas_session_running :
      (f : SessionRow → SessionRow)
      → ((x : SessionRow) → (f x).session_id ≡ x.session_id)
      → may_finish session_id r ≡ true
      → let (won, w') = cas_session (may_finish session_id) f w in
        (won ≡ true) × (load_session session_id w'.db ≡ some (f r))
  unfolding load_session
  cas_session_running f keep may = (
    rw (finishers, may),
    find_where-update_where (is_session session_id) (may_finish session_id) f (λ x. rw (keep x))
          w.db.sessions
        ∙ rw (found, may),
  )

abbrev pub row_after : Option Outcome → ℕ → SessionRow → SessionRow
row_after none now r = r
row_after (some review) now r = review_row now r
row_after (some cancelled) now r = cancelled_row now r

-- The answer by the three tests on the board.
abbrev verdict : Bool → Bool → Bool → Option Outcome
verdict flight awaiting failed =
    if flight
    then none
    else if awaiting
    then some review
    else if failed
    then some cancelled
    else none

verdict_review : (f a e : Bool) → (verdict f a e ≡ some review) ↔ ((f ≡ false) × (a ≡ true))
verdict_review f a e = (λ h. ground arith, λ h. ground arith)

verdict_cancelled :
    (f a e : Bool) → (verdict f a e ≡ some cancelled) ↔ ((f ≡ false) × (a ≡ false) × (e ≡ true))
verdict_cancelled f a e = (λ h. ground arith, λ h. ground arith)

module _ (uuid4 : ℕ → ℕ) (s : SessionRef) (w : World) (r : SessionRow)
    (found : load_session s.session_id w.db ≡ some r) (unique : UniqueSession s.session_id w.db)
    (may : may_finish s.session_id r ≡ true) where
  -- Both transitions win, and leave the row that they write.
  pub send_to_review_running :
      let (won, w') = send_to_review uuid4 s w in
      (won ≡ true) × (load_session s.session_id w'.db ≡ some (review_row w.now r))
  unfolding send_to_review load_session
  send_to_review_running =
      let (won, row) = cas_session_running s w r found unique (review_row w.now) (λ x. refl) may in
      (rw won, rw won row)

  pub mark_session_failed_running :
      let (won, w') = mark_session_failed uuid4 s w in
      (won ≡ true) × (load_session s.session_id w'.db ≡ some (cancelled_row w.now r))
  unfolding mark_session_failed load_session
  mark_session_failed_running =
      let (won, row) =
        cas_session_running s w r found unique (cancelled_row w.now) (λ x. refl) may in
      (rw won, rw won row)

  abbrev pub act : Bool → Bool → Bool → Option Outcome × World
  act f a e =
      if f
      then (none, w)
      else if a
      then report uuid4 review (send_to_review uuid4 s w)
      else if e
      then report uuid4 cancelled (mark_session_failed uuid4 s w)
      else (none, w)

  act_lem :
      (f a e : Bool)
      → ((act f a e).0 ≡ verdict f a e)
        × (load_session s.session_id (act f a e).1.db ≡ some (row_after (act f a e).0 w.now r))
  act_lem true a e = (refl, found)
  act_lem false true e = let (won, row) = send_to_review_running in (rw won, rw won row)
  act_lem false false true = let (won, row) = mark_session_failed_running in (rw won, rw won row)
  act_lem false false false = (refl, found)

module _ (uuid4 : ℕ → ℕ) (s : SessionRef) (w : World) (r : SessionRow)
    (found : load_session s.session_id w.db ≡ some r) (unique : UniqueSession s.session_id w.db)
    (may : may_finish s.session_id r ≡ true) (x : StageStatus) (xs : List StageStatus) where
  pub awaits : Bool
  awaits = any (λ t. t == StageStatus.awaiting_decision) (x ∷ xs)

  pub fails : Bool
  fails = any (λ t. t == StageStatus.error) (x ∷ xs)

  pub decide_running :
      let (answer, w') = decide uuid4 s (x ∷ xs) w in
      (answer ≡ verdict (any is_in_flight (x ∷ xs)) awaits fails)
      × (load_session s.session_id w'.db ≡ some (row_after answer w.now r))
  unfolding decide awaits fails
  decide_running = act_lem uuid4 s w r found unique may (any is_in_flight (x ∷ xs)) awaits fails

  pub decide_review :
      ((decide uuid4 s (x ∷ xs) w).0 ≡ some review)
      ↔ (All Settled (x ∷ xs) × (¬ Lacks StageStatus.awaiting_decision (x ∷ xs)))
  unfolding awaits fails
  decide_review =
      let (to, from) = verdict_review (any is_in_flight (x ∷ xs)) awaits fails in
      let (settled, calm) = Settled-iff (x ∷ xs) in
      let (some_awaits, has) = has_iff StageStatus.awaiting_decision (x ∷ xs) in
      (
        λ h. let (f, a) = to (sym decide_running.0 ∙ h) in (settled f, some_awaits a),
        λ h. decide_running.0 ∙ from (calm h.0, has h.1),
      )

  pub decide_cancelled : ((decide uuid4 s (x ∷ xs) w).0 ≡ some cancelled) ↔ (
      All Settled (x ∷ xs)
      × Lacks StageStatus.awaiting_decision (x ∷ xs)
      × (¬ Lacks StageStatus.error (x ∷ xs)))
  unfolding awaits fails
  decide_cancelled =
      let (to, from) = verdict_cancelled (any is_in_flight (x ∷ xs)) awaits fails in
      let (settled, calm) = Settled-iff (x ∷ xs) in
      let (none_awaits, lacks) = Lacks-iff StageStatus.awaiting_decision (x ∷ xs) in
      let (some_fails, has) = has_iff StageStatus.error (x ∷ xs) in
      (
        λ h.
            let (f, a, e) = to (sym decide_running.0 ∙ h) in
            (settled f, none_awaits a, some_fails e),
        λ h. decide_running.0 ∙ from (calm h.0, lacks h.1, has h.2),
      )
