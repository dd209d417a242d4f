-- ===== src/Api/Routes.antt =====
-- app/api/sessions.py: the routes on one session, from the authorized session on. The bodies of the
-- requests are the arguments.
use tsg.Base.{ℕ, Option, List, nat_eq, string_eq}
use tsg.Enums.{AuditEventType, session_status_eq, workflow_stage_eq, stage_status_eq, level_eq}
use tsg.Python.{Builtins}
use tsg.Dal.Settings.{Settings}
use tsg.Dal.Sessions.{cancel_session}
use tsg.World.{World, ref_of, AuditEntry, plain_entry, on_db, audit}
use tsg.Pipeline.Accept.{Answer, accepted, refused, accept_session}
use tsg.Api.{Principal, of_review, Response, fails, answers, with_session}
use tsg.Api.Board.{SessionBoard, SessionResults, build_board, session_results}

-- What `session_events` reads before it streams: the board of the `reconcile` event.
unfoldable pub get_board : ℕ → Principal → World → Response SessionBoard × World
get_board sid p = with_session sid p (λ x w. (answers (build_board x w.db), w))

-- GET /sessions/{id}/results
unfoldable pub get_results : ℕ → Principal → World → Response SessionResults × World
get_results sid p = with_session sid p (λ x w. (answers (session_results x w.db), w))

module _ (s : Settings) (py : Builtins) (uuid4 identity : ℕ → ℕ) where
  abbrev accept_answer : Answer × World → Response (Unit {0}) × World
  accept_answer (accepted, w) = (answers tt, w)
  accept_answer (refused e, w) = (fails (of_review e), w)

  unfoldable pub post_accept : ℕ → Option (List ℕ) → Principal → World → Response (Unit {0}) × World
  post_accept sid subset p =
      with_session sid p (λ x w.
        accept_answer (accept_session s py uuid4 identity sid x.entity_id p.user_id subset w))

  abbrev cancelled_entry : Principal → AuditEntry
  cancelled_entry p = record (plain_entry AuditEventType.session_cancelled) {
    actor_user_id = p.user_id;
  }

  unfoldable pub post_cancel : ℕ → Principal → World → Response (Unit {0}) × World
  post_cancel sid p = with_session sid p (λ x w.
      (answers tt, audit uuid4 (ref_of x) (cancelled_entry p) (on_db (cancel_session w.now sid) w)))
