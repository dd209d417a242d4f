-- ===== src/Pipeline/Cascade/Regenerate.antt =====
-- app/pipeline/cascade.py: `redo_the_requested_parts` and `run_regeneration`.
use tsg.Base.{
  ℕ, String, Option, none, some, List, [], ◌∷◌, map, ◌==◌, if◌then◌else◌, nat_eq, find_where,
}
use tsg.Enums.{StageStatus, SubsystemLevel, AuditEventType, RegenGranularity}
use tsg.Json.{Json, Fields, fields_of}
use tsg.Models.{Db, SessionRow, Subsystem, AuditDetail}
use tsg.Dal.Outputs.{Threat, active_threats, get_active_profile, count_active_flagged_threats}
use tsg.Dal.Library.{active_threat_types, active_threat_categories}
use tsg.Failure.{failed}
use tsg.World.{World, ref_of, AuditEntry, plain_entry, commit, audit}
use tsg.Pipeline.Outcome.{Outcome, decide_session_outcome}
use tsg.Pipeline.Run.{Services, Run, pure, raise, act, read, ◌>>=◌, ◌>>◌}
use tsg.Pipeline.Stages.{claim, write_profile, find_threats}
use tsg.Pipeline.Scenarios.{write_scenarios}
use tsg.Pipeline.Session.{with_lock}
use tsg.Pipeline.Cascade.{
  Redo, conflict, redo, get_threat_id_to_redo, or_empty, reground_each, mark_threats,
  find_threat_to_resume_after_crash,
}

abbrev pub ids_of : List Threat → List ℕ
ids_of = map (λ t. t.threat_id)

abbrev pub profile_fields : Option Json → Fields
profile_fields none = Fields.end
profile_fields (some j) = fields_of j

-- A request: the supporting system, what to redo, and the epoch that the endpoint reserved.
pub record Request : Type 0 where
  pub subsystem_id : ℕ
  pub granularity : RegenGranularity
  pub target_ids : Option (List ℕ)
  pub epoch : ℕ
  pub user_note : Option String

module _ (sv : Services) (new_threat_id : ℕ → ℕ → ℕ → ℕ → ℕ) where
  -- The scenarios of these threats, ranked among all current threats of the supporting system.
  abbrev pub rewrite_scenarios : SessionRow → Subsystem → Option (List ℕ) → ℕ → ℕ → Run (Unit {0})
  rewrite_scenarios x sub target epoch task = do
    threats ← read (λ w. active_threats x.session_id sub.id w.db)
    count ← write_scenarios sv x sub threats task epoch target
    pure tt

  abbrev pub rewrite_new : SessionRow → Subsystem → List ℕ → ℕ → ℕ → Run (Unit {0})
  rewrite_new x sub [] epoch task = pure tt
  rewrite_new x sub (t ∷ ts) epoch task = rewrite_scenarios x sub (some (t ∷ ts)) epoch task

  abbrev pub reground_all : SessionRow → Subsystem → List ℕ → ℕ → Run (List ℕ)
  reground_all x sub ids epoch = do
    new ← reground_each sv new_threat_id x sub ids epoch
    act (mark_threats sv new_threat_id x sub StageStatus.complete)
    pure new

  -- The `threat` branch: the cell is claimed once for all of them.
  unfoldable pub redo_threats : SessionRow → Subsystem → List ℕ → ℕ → ℕ → Run (List ℕ)
  redo_threats x sub [] epoch task = pure []
  redo_threats x sub (t ∷ ts) epoch task = do
    won ← claim sv x sub.id SubsystemLevel.threats epoch task
    if won then reground_all x sub (t ∷ ts) epoch else pure []

  -- The `threat_type` and `threat_category` branches.
  abbrev pub redo_scope : SessionRow → Subsystem → List ℕ → List ℕ → ℕ → ℕ → Run (Unit {0})
  redo_scope x sub type_ids category_ids epoch task = do
    profile ← read (λ w. profile_fields (get_active_profile x.session_id sub.id w.db))
    threats ← find_threats sv x sub profile task epoch type_ids category_ids
    count ← write_scenarios sv x sub threats task epoch (some (ids_of threats))
    pure tt

  unfoldable pub redo_the_requested_parts :
      SessionRow → Subsystem → RegenGranularity → Option (List ℕ) → ℕ → ℕ → Run (Unit {0})
  redo_the_requested_parts x sub RegenGranularity.scenario ids epoch task =
      rewrite_scenarios x sub ids epoch task
  redo_the_requested_parts x sub RegenGranularity.threat ids epoch task = do
    new ← redo_threats x sub (or_empty ids) epoch task
    rewrite_new x sub new epoch task
  redo_the_requested_parts x sub RegenGranularity.threat_type ids epoch task =
      redo_scope x sub (or_empty ids) [] epoch task
  redo_the_requested_parts x sub RegenGranularity.threat_category ids epoch task =
      redo_scope x sub [] (or_empty ids) epoch task
  redo_the_requested_parts x sub RegenGranularity.profile ids epoch task = do
    profile ← write_profile sv x sub task epoch
    threats ← find_threats sv x sub (profile_fields profile) task epoch [] []
    count ← write_scenarios sv x sub threats task epoch none
    pure tt

  -- What the audit row says of the ids that were redone.
  abbrev redone : List ℕ → List ℕ → Option (List ℕ)
  redone [] [] = none
  redone [] (r ∷ rs) = some (r ∷ rs)
  redone (i ∷ is) resumed = some (i ∷ is)

  abbrev resolved_names : RegenGranularity → List ℕ → Db → Option (List String)
  resolved_names RegenGranularity.threat_type (i ∷ is) db =
      some (map (λ r. r.threat_type_name) (active_threat_types (i ∷ is) db))
  resolved_names RegenGranularity.threat_category (i ∷ is) db =
      some (map (λ r. r.threat_category_name) (active_threat_categories (i ∷ is) db))
  resolved_names _ ids db = none

  abbrev skipped_flagged : SessionRow → ℕ → RegenGranularity → List ℕ → Db → Option ℕ
  skipped_flagged x ss RegenGranularity.threat_category (i ∷ is) db =
      some (count_active_flagged_threats x.session_id ss db)
  skipped_flagged x ss _ ids db = none

  abbrev non_empty : Option (List ℕ) → Option (List ℕ)
  non_empty none = none
  non_empty (some []) = none
  non_empty (some (i ∷ is)) = some (i ∷ is)

  abbrev completed_entry : SessionRow → Request → List ℕ → List ℕ → Db → AuditEntry
  completed_entry x rq ids resumed db = record (plain_entry AuditEventType.regeneration_completed) {
    subsystem_id = some rq.subsystem_id;
    granularity = some rq.granularity;
    detail =
        AuditDetail.regenerated (redone ids resumed) (resolved_names rq.granularity ids db)
          (non_empty rq.target_ids) (skipped_flagged x rq.subsystem_id rq.granularity ids db)
          rq.epoch rq.user_note;
  }

  abbrev pub report_regeneration : SessionRow → Request → List ℕ → List ℕ → World → World
  report_regeneration x rq ids resumed w =
      commit (audit sv.uuid4 (ref_of x) (completed_entry x rq ids resumed w.db) w)

  abbrev pub resumable : SessionRow → Request → Db → List ℕ
  resumable x rq db =
      find_threat_to_resume_after_crash sv new_threat_id x.session_id rq.subsystem_id rq.granularity
        rq.target_ids rq.epoch db

  abbrev pub targets : SessionRow → Request → Db → Redo
  targets x rq db =
      get_threat_id_to_redo x.session_id rq.subsystem_id rq.granularity rq.target_ids db

  abbrev pub resume_scenarios : SessionRow → Subsystem → Request → ℕ → List ℕ → Run (Unit {0})
  resume_scenarios x sub rq task [] = pure tt
  resume_scenarios x sub rq task (t ∷ ts) = rewrite_scenarios x sub (some (t ∷ ts)) rq.epoch task

  -- Under the lock, after a crash: the replacements are looked up again.
  unfoldable pub resume_work : SessionRow → Subsystem → Request → ℕ → Run (Unit {0})
  resume_work x sub rq task = do
    resumed ← read (λ w. resumable x rq w.db)
    resume_scenarios x sub rq task resumed
    act (report_regeneration x rq [] resumed)

  abbrev pub redo_found : SessionRow → Subsystem → Request → ℕ → Redo → Run (Unit {0})
  redo_found x sub rq task conflict = raise failed
  redo_found x sub rq task (redo ids) = do
    redo_the_requested_parts x sub rq.granularity ids rq.epoch task
    act (report_regeneration x rq (or_empty ids) [])

  -- Under the lock: the targets are validated again, and a conflict is a failure.
  unfoldable pub redo_work : SessionRow → Subsystem → Request → ℕ → Run (Unit {0})
  redo_work x sub rq task = do found ← read (λ w. targets x rq w.db); redo_found x sub rq task found

  abbrev pub finish_regeneration : SessionRow → World → Option Outcome × World
  finish_regeneration x w = decide_session_outcome sv.uuid4 (ref_of x) w

  abbrev pub resume_locked :
      SessionRow → Subsystem → Request → ℕ → World → List ℕ → Option Outcome × World
  resume_locked x sub rq task w [] = finish_regeneration x w
  resume_locked x sub rq task w (t ∷ ts) =
      finish_regeneration x (with_lock sv x sub.id task (resume_work x sub rq task) w)

  abbrev pub regenerate_locked :
      SessionRow → Subsystem → Request → ℕ → World → Redo → Option Outcome × World
  regenerate_locked x sub rq task w conflict = resume_locked x sub rq task w (resumable x rq w.db)
  regenerate_locked x sub rq task w (redo ids) =
      finish_regeneration x (with_lock sv x sub.id task (redo_work x sub rq task) w)

  abbrev pub regenerate_sub :
      SessionRow → Request → ℕ → World → Option Subsystem → Option Outcome × World
  regenerate_sub x rq task w none = finish_regeneration x w
  regenerate_sub x rq task w (some sub) = regenerate_locked x sub rq task w (targets x rq w.db)

  unfoldable pub run_regeneration : SessionRow → Request → ℕ → World → Option Outcome × World
  run_regeneration x rq task w =
      regenerate_sub x rq task w (find_where (λ s. s.id == rq.subsystem_id) x.subsystems)
