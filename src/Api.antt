-- ===== src/Api.antt =====
-- app/api: who may call, what a call answers, and the HTTP status of a failure.
pub mod Board
pub mod Routes
pub mod Regenerate
pub mod Guards
pub mod Scope
use tsg.Base.{ℕ, Bool, true, false, Option, none, some, List, ◌==◌, nat_eq, contains, if◌then◌else◌}
use tsg.Models.{Db, SessionRow}
use tsg.Dal.Sessions.{
  DalError, session_conflict, idempotency_key_conflict, capacity_exceeded, entity_forbidden,
  not_found, regenerate_conflict, Result, ok, err, load_session,
}
use tsg.World.{World, commit, rollback}
use tsg.Pipeline.Accept.{Refusal, accept_conflict, master_inactive}

-- `Principal`: the subject of the token, and the entities that it may act for.
pub record Principal : Type 0 where
  pub user_id : Option ℕ
  pub entities : List ℕ

-- The exceptions that app/api/errors.py knows.
pub data ApiError : Type 0 where
  of_dal : DalError → ApiError
  of_review : Refusal → ApiError

pub data Response (A : Type 0) : Type 0 where
  fails : ApiError → Response A
  answers : A → Response A

-- `register_error_handlers`
unfoldable pub status_code : ApiError → ℕ
status_code (of_dal (session_conflict holder)) = 409
status_code (of_dal (idempotency_key_conflict holder)) = 409
status_code (of_dal capacity_exceeded) = 503
status_code (of_dal entity_forbidden) = 403
status_code (of_dal not_found) = 404
status_code (of_dal regenerate_conflict) = 409
status_code (of_review Refusal.entity_forbidden) = 403
status_code (of_review accept_conflict) = 409
status_code (of_review (master_inactive ids)) = 409

-- `with db_session() as sess`: commit on success, rollback on error.
abbrev pub close_session : {A : Type 0} → Response A × World → Response A × World
close_session (answers a, w) = (answers a, commit w)
close_session (fails e, w) = (fails e, rollback w)

abbrev pub authorize : Principal → Option SessionRow → Result SessionRow
authorize p none = err not_found
authorize p (some x) = if contains p.entities x.entity_id then ok x else err entity_forbidden

-- `get_authorized_session`
unfoldable pub get_authorized_session : ℕ → Principal → Db → Result SessionRow
get_authorized_session sid p db = authorize p (load_session sid db)

-- A route on the session that the caller may see, in its transaction.
abbrev pub on_session :
    {A : Type 0}
    → Result SessionRow
    → (SessionRow → World → Response A × World)
    → World
    → Response A × World
on_session (err e) route w = (fails (of_dal e), w)
on_session (ok x) route w = route x w

unfoldable pub with_session :
    {A : Type 0}
    → ℕ
    → Principal
    → (SessionRow → World → Response A × World)
    → World
    → Response A × World
with_session sid p route w = close_session (on_session (get_authorized_session sid p w.db) route w)
