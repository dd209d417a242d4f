-- ===== src/Dal/Sessions.antt =====
-- app/db/dal.py: sessions, admission control and the idempotency key.
pub mod Admission
use tsg.Base.{
  ℕ, String, Bool, true, false, not, ◌&&◌, ◌||◌, Option, none, some, List, ◌∷◌, leb, ◌==◌,
  if◌then◌else◌, nat_eq, string_eq, is_some_of, any, find_where, count_where, update_where,
}
use tsg.Enums.{SessionStatus, WorkflowStage, StageStatus, session_status_eq, workflow_stage_eq}
use tsg.Models.{Db, SessionRow}
use tsg.Dal.Settings.{Settings}

-- The exceptions of the data layer that the API maps to a status code.
pub data DalError : Type 0 where
  session_conflict : Option ℕ → DalError
  idempotency_key_conflict : ℕ → DalError
  capacity_exceeded : DalError
  entity_forbidden : DalError
  not_found : DalError
  regenerate_conflict : DalError

-- How a call ends: with a value, or with an exception.
pub data Result (A : Type 0) : Type 0 where
  err : DalError → Result A
  ok : A → Result A

infixl 5 ◌>>=◌ ◌>>◌
abbrev pub ◌>>=◌ : {A B : Type 0} → Result A → (A → Result B) → Result B
err e >>= f = err e
ok a >>= f = f a

abbrev pub ◌>>◌ : {B : Type 0} → Result (Unit {0}) → Result B → Result B
err e >> k = err e
ok _ >> k = k

abbrev pub raise_if : Bool → DalError → Result (Unit {0})
raise_if true e = err e
raise_if false e = ok tt

abbrev pub is_session : ℕ → SessionRow → Bool
is_session sid r = r.session_id == sid

-- The row that holds the one-active-session lock of an asset.
abbrev pub holds_asset : ℕ → ℕ → SessionRow → Bool
holds_asset entity asset r =
    r.entity_id == entity
    && r.asset_external_id == asset
    && r.session_status == SessionStatus.active

abbrev pub has_idempotency_key : ℕ → String → SessionRow → Bool
has_idempotency_key entity key r = r.entity_id == entity && is_some_of r.idempotency_key key

abbrev pub session_id_of : Option SessionRow → Option ℕ
session_id_of none = none
session_id_of (some r) = some r.session_id

-- The primary key and the two filtered unique indexes, `UX_Session_ActiveAsset` and
-- `UX_Session_IdempotencyKey`, as the database enforces them on an insert.
abbrev pub violates_index : SessionRow → List SessionRow → Bool
violates_index v rows =
    any (is_session v.session_id) rows
    || (v.session_status == SessionStatus.active
        && any (holds_asset v.entity_id v.asset_external_id) rows)
    || elim v.idempotency_key [
      | none ↦ false
      | some key ↦ any (has_idempotency_key v.entity_id key) rows
    ]

abbrev pub find_key_holder : SessionRow → List SessionRow → Option ℕ
find_key_holder v rows = elim v.idempotency_key [
  | none ↦ none
  | some key ↦
      (if key == ""
        then none
        else session_id_of (find_where (has_idempotency_key v.entity_id key) rows))
]

-- `create_session`: the insert, or the conflict that its violation of an index stands for.
pub create_session : SessionRow → Db → Result (ℕ × Db)
create_session v db =
    if violates_index v db.sessions
    then elim (find_key_holder v db.sessions) [
      | some winner ↦ err (idempotency_key_conflict winner)
      | none ↦ err (
          session_conflict
            (session_id_of (find_where (holds_asset v.entity_id v.asset_external_id) db.sessions)))
    ]
    else ok (v.session_id, record db { sessions = v ∷ db.sessions })

unfoldable pub load_session : ℕ → Db → Option SessionRow
load_session sid db = find_where (is_session sid) db.sessions

-- `get_session`: only within the caller's entity.
unfoldable pub get_session : ℕ → ℕ → Db → Option SessionRow
get_session sid entity db =
    find_where (λ r. r.session_id == sid && r.entity_id == entity) db.sessions

abbrev pub update_sessions : (SessionRow → Bool) → (SessionRow → SessionRow) → Db → Db
update_sessions p f db = record db { sessions = update_where p f db.sessions }

unfoldable pub complete_session : ℕ → ℕ → Db → Db
complete_session now sid = update_sessions (is_session sid) λ r. record r {
  session_status = SessionStatus.completed;
  current_stage = WorkflowStage.approved;
  completed_at = some now;
  updated_at = now;
}

-- The columns that a cancelled session shows.
abbrev pub cancelled_row : ℕ → SessionRow → SessionRow
cancelled_row now r = record r {
  session_status = SessionStatus.cancelled;
  current_stage = WorkflowStage.cancelled;
  stage_status = StageStatus.cancelled;
  updated_at = now;
}

pub cancel_session : ℕ → ℕ → Db → Db
cancel_session now sid = update_sessions (is_session sid) (cancelled_row now)

abbrev is_active : SessionRow → Bool
is_active r = r.session_status == SessionStatus.active

pub count_active_sessions : Db → ℕ
count_active_sessions db = count_where is_active db.sessions

pub assert_capacity_available : Settings → Db → Result (Unit {0})
unfolding count_active_sessions
assert_capacity_available s db =
    raise_if (leb s.max_active_sessions (count_active_sessions db)) capacity_exceeded

-- `reserve_idempotency_key_or_get_existing`: the session that has the key, if one has, and whether it
-- is of another asset.
pub reserve_idempotency_key_or_get_existing : ℕ → String → ℕ → Db → Option ℕ × Bool
reserve_idempotency_key_or_get_existing entity key asset db =
    elim (find_where (has_idempotency_key entity key) db.sessions) [
      | none ↦ (none, false)
      | some r ↦ (some r.session_id, not (r.asset_external_id == asset))
    ]
