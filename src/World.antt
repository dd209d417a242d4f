-- ===== src/World.antt =====
-- What a worker runs in: one SQLAlchemy session (app/db/engine.py) with its uncommitted work, the
-- events that were handed to app/sse/bus.py, the clock and the sources of ids and of model replies.
use tsg.Base.{ℕ, suc, String, Option, none, List, ◌∷◌}
use tsg.Enums.{
  WorkflowStage, StageStatus, SubsystemLevel, AuditEventType, AuditDecision, RegenGranularity,
  SseEventType,
}
use tsg.Models.{Db, SessionRow, AuditDetail}
use tsg.Dal.Outputs.{append_audit}

-- A published event: its type, session and subsystem, and the fields that its type carries.
pub record Event : Type 0 where
  pub event_type : SseEventType
  pub session_id : ℕ
  pub subsystem_id : Option ℕ
  pub subsystem_index : Option ℕ
  pub stage : Option SubsystemLevel
  pub status : Option StageStatus
  pub epoch : Option ℕ
  pub message : Option String
  pub at : ℕ

-- `db` is what the transaction sees, `saved` what the last commit left. Events are not part of the
-- transaction. `drawn` counts the ids drawn so far, `asked` the calls of the model.
pub record World : Type 0 where
  pub saved : Db
  pub db : Db
  pub events : List Event
  pub now : ℕ
  pub drawn : ℕ
  pub asked : ℕ

abbrev pub commit : World → World
commit w = record w { saved = w.db }

abbrev pub rollback : World → World
rollback w = record w { db = w.saved }

abbrev pub on_db : (Db → Db) → World → World
on_db f w = record w { db = f w.db }

abbrev pub publish : Event → World → World
publish e w = record w { events = e ∷ w.events }

-- The three columns of a session that the reaper and the outcome rule read.
pub record SessionRef : Type 0 where
  pub session_id : ℕ
  pub tenant_id : ℕ
  pub entity_id : ℕ

abbrev pub ref_of : SessionRow → SessionRef
ref_of r = record { session_id = r.session_id; tenant_id = r.tenant_id; entity_id = r.entity_id }

-- The columns of an audit row that the caller chooses; the others are NULL.
pub record AuditEntry : Type 0 where
  pub stage : Option WorkflowStage
  pub subsystem_id : Option ℕ
  pub event_type : AuditEventType
  pub decision : Option AuditDecision
  pub granularity : Option RegenGranularity
  pub actor_user_id : Option ℕ
  pub detail : AuditDetail

abbrev pub plain_entry : AuditEventType → AuditEntry
plain_entry event_type = record {
  stage = none;
  subsystem_id = none;
  event_type = event_type;
  decision = none;
  granularity = none;
  actor_user_id = none;
  detail = AuditDetail.nothing;
}

-- `guid()`: `uuid4 n` is the n-th id that the generator returns.
abbrev pub guid : (ℕ → ℕ) → World → ℕ × World
guid uuid4 w = (uuid4 w.drawn, record w { drawn = suc w.drawn })

-- `dal.append_audit(sess, AuditID=guid(), SessionID=..., TenantID=..., EntityID=..., ...)`
abbrev pub audit : (ℕ → ℕ) → SessionRef → AuditEntry → World → World
audit uuid4 s e w =
    let (id, w') = guid uuid4 w in
    on_db
      (append_audit (record {
        audit_id = id;
        session_id = s.session_id;
        tenant_id = s.tenant_id;
        entity_id = s.entity_id;
        stage = e.stage;
        subsystem_id = e.subsystem_id;
        event_type = e.event_type;
        decision = e.decision;
        granularity = e.granularity;
        actor_user_id = e.actor_user_id;
        detail = e.detail;
        created_at = w.now;
      }))
      w'
