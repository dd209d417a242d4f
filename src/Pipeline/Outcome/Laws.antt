-- ===== src/Pipeline/Outcome/Laws.antt =====
-- What `decide_session_outcome` answers and writes, on every board, and that it is safe to repeat.
use tsg.Base.{
  ℕ, ◌≡◌, ◌≢◌, ◌↔◌, ◌⊎◌, inl, inr, refl, ◌∙◌, Bool, true, false, none, some, List, [], ◌∷◌, ◌==◌,
  any, All, arith, Bool-cases, count_where-update_where,
}
use tsg.Enums.{
  SessionStatus, WorkflowStage, StageStatus, session_status_eq, workflow_stage_eq, stage_status_eq,
  session_status_iff, workflow_stage_iff,
}
use tsg.Models.{SessionRow}
use tsg.Dal.Sessions.{is_session, cancelled_row, load_session}
use tsg.Dal.Stages.{is_in_flight}
use tsg.World.{World, SessionRef}
use tsg.Pipeline.Outcome.{
  Outcome, review, cancelled, may_finish, review_row, send_to_review, mark_session_failed, decide,
  decide_session_outcome, statuses, cas_session,
}
use tsg.Pipeline.Outcome.Cases.{
  UniqueSession, Settled, Lacks, decide_done, finishers, cas_session_running, row_after,
  send_to_review_running, mark_session_failed_running, act, decide_running, decide_review,
  decide_cancelled,
}

-- A session that has left the running state, or waits at REVIEW, is never moved by the outcome rule:
-- nothing is answered, written or published, so REVIEW and the failure exclude each other.
pub decide_session_outcome_done :
    (uuid4 : ℕ → ℕ) (s : SessionRef) (w : World) (r : SessionRow)
    → load_session s.session_id w.db ≡ some r
    → UniqueSession s.session_id w.db
    → (r.session_status ≢ SessionStatus.active) ⊎ (r.current_stage ≡ WorkflowStage.review)
    → decide_session_outcome uuid4 s w ≡ (none, w)
unfolding decide_session_outcome
decide_session_outcome_done uuid4 s w r e u h =
    decide_done uuid4 s w (statuses uuid4 s.session_id w.db) (
      finishers s w r e u
      ∙ ground (
        arith,
        h,
        session_status_iff r.session_status SessionStatus.active,
        workflow_stage_iff r.current_stage WorkflowStage.review,
      ))

-- For a running session with a seeded board: it goes to REVIEW exactly when every stage is settled
-- and one awaits a decision, it is cancelled exactly when every stage is settled, none awaits a
-- decision and one failed, and its row is left as the answer says.
pub decide_session_outcome_lem :
    (uuid4 : ℕ → ℕ) (s : SessionRef) (w : World) (r : SessionRow) (x : StageStatus)
    (xs : List StageStatus)
    → load_session s.session_id w.db ≡ some r
    → UniqueSession s.session_id w.db
    → may_finish s.session_id r ≡ true
    → statuses uuid4 s.session_id w.db ≡ x ∷ xs
    → let (answer, w') = decide_session_outcome uuid4 s w in
      ((answer ≡ some review)
        ↔ (All Settled (x ∷ xs) × (¬ Lacks StageStatus.awaiting_decision (x ∷ xs))))
      × ((answer ≡ some cancelled) ↔ (
          All Settled (x ∷ xs)
          × Lacks StageStatus.awaiting_decision (x ∷ xs)
          × (¬ Lacks StageStatus.error (x ∷ xs))))
      × (load_session s.session_id w'.db ≡ some (row_after answer w.now r))
unfolding decide_session_outcome
decide_session_outcome_lem uuid4 s w r x xs e u may board = rw board (
  decide_review uuid4 s w r e u may x xs,
  decide_cancelled uuid4 s w r e u may x xs,
  (decide_running uuid4 s w r e u may x xs).1,
)

decide_over :
    (uuid4 : ℕ → ℕ) (s : SessionRef) (w : World) (r : SessionRow)
    → load_session s.session_id w.db ≡ some r
    → UniqueSession s.session_id w.db
    → may_finish s.session_id r ≡ false
    → decide_session_outcome uuid4 s w ≡ (none, w)
unfolding decide_session_outcome
decide_over uuid4 s w r e u over =
    decide_done uuid4 s w (statuses uuid4 s.session_id w.db) (finishers s w r e u ∙ rw over)

module _ (uuid4 : ℕ → ℕ) (s : SessionRef) (w : World) (r : SessionRow)
    (found : load_session s.session_id w.db ≡ some r) (unique : UniqueSession s.session_id w.db)
    (may : may_finish s.session_id r ≡ true) where
  -- After a transition the session is over, so a second run does nothing.
  over_after :
      (o : Outcome) (w' : World)
      → load_session s.session_id w'.db ≡ some (row_after (some o) w.now r)
      → UniqueSession s.session_id w'.db
      → decide_session_outcome uuid4 s w' ≡ (none, w')
  over_after review w' row u = decide_over uuid4 s w' _ row u (ground arith)
  over_after cancelled w' row u = decide_over uuid4 s w' _ row u (ground arith)

  still_unique :
      (f : SessionRow → SessionRow)
      → ((x : SessionRow) → (f x).session_id ≡ x.session_id)
      → UniqueSession s.session_id (cas_session (may_finish s.session_id) f w).1.db
  still_unique f keep =
      rw
        (count_where-update_where (is_session s.session_id) (may_finish s.session_id) f
          (λ x. rw (keep x)) w.db.sessions)
        unique

  review_unique : UniqueSession s.session_id (send_to_review uuid4 s w).1.db
  unfolding send_to_review
  review_unique =
      let (won, _) = cas_session_running s w r found unique (review_row w.now) (λ x. refl) may in
      rw won (still_unique (review_row w.now) (λ x. refl))

  failed_unique : UniqueSession s.session_id (mark_session_failed uuid4 s w).1.db
  unfolding mark_session_failed
  failed_unique =
      let (won, _) = cas_session_running s w r found unique (cancelled_row w.now) (λ x. refl) may in
      rw won (still_unique (cancelled_row w.now) (λ x. refl))

  act_again :
      (f a e : Bool)
      → decide_session_outcome uuid4 s w ≡ act uuid4 s w r found unique may f a e
      → let w' = (act uuid4 s w r found unique may f a e).1 in
        decide_session_outcome uuid4 s w' ≡ (none, w')
  act_again true a e same = same
  act_again false true e same =
      over_after review (send_to_review uuid4 s w).1
        (send_to_review_running uuid4 s w r found unique may).1 review_unique
  act_again false false true same =
      over_after cancelled (mark_session_failed uuid4 s w).1
        (mark_session_failed_running uuid4 s w r found unique may).1 failed_unique
  act_again false false false same = same

  again_on :
      (xs : List StageStatus)
      → decide_session_outcome uuid4 s w ≡ decide uuid4 s xs w
      → let w' = (decide uuid4 s xs w).1 in decide_session_outcome uuid4 s w' ≡ (none, w')
  unfolding decide
  again_on [] same = same
  again_on (x ∷ xs) same =
      act_again (any is_in_flight (x ∷ xs)) (any (λ t. t == StageStatus.awaiting_decision) (x ∷ xs))
        (any (λ t. t == StageStatus.error) (x ∷ xs)) same

  again_running :
      let w' = (decide_session_outcome uuid4 s w).1 in
      decide_session_outcome uuid4 s w' ≡ (none, w')
  again_running =
      let same : decide_session_outcome uuid4 s w
          ≡ decide uuid4 s (statuses uuid4 s.session_id w.db) w =
        unfold decide_session_outcome in refl in
      rw same (again_on (statuses uuid4 s.session_id w.db) same)

-- The rule can be run twice in a row, by the pipeline, the reaper or a redelivered task: the second
-- run answers nothing and leaves the database and the published events as the first left them.
pub decide_session_outcome_once :
    (uuid4 : ℕ → ℕ) (s : SessionRef) (w : World) (r : SessionRow)
    → load_session s.session_id w.db ≡ some r
    → UniqueSession s.session_id w.db
    → let w' = (decide_session_outcome uuid4 s w).1 in
      decide_session_outcome uuid4 s w' ≡ (none, w')
decide_session_outcome_once uuid4 s w r e u = elim (Bool-cases (may_finish s.session_id r)) [
  | inl may ↦ again_running uuid4 s w r e u may
  | inr over ↦ let same = decide_over uuid4 s w r e u over in rw same same
]
