-- ===== src/Api/Regenerate.antt =====
-- app/api/sessions.py: `_do_regenerate`, up to the job that is enqueued, and the targets of the
-- categories route.
use tsg.Base.{
  ℕ, String, Bool, true, false, not, ◌&&◌, ◌||◌, Option, none, some, List, [], ◌∷◌, ◌==◌, nat_eq,
  string_eq, if◌then◌else◌, any, find_where, select_where,
}
use tsg.Base.Sort.{order_by}
use tsg.Enums.{
  SessionStatus, WorkflowStage, StageStatus, SubsystemLevel, RegenGranularity, session_status_eq,
  workflow_stage_eq, stage_status_eq, level_eq,
}
use tsg.Models.{Db, SessionRow, ThreatCategoryRow}
use tsg.Python.{Builtins}
use tsg.Dal.Sessions.{
  not_found, regenerate_conflict, Result, ok, err, raise_if, ◌>>=◌, ◌>>◌, is_session,
}
use tsg.Dal.Stages.{is_cell, next_epoch, reset_stage_for_regen}
use tsg.World.{World, on_db}
use tsg.Pipeline.Accept.{at_review}
use tsg.Pipeline.Outcome.{cas_session}
use tsg.Pipeline.Cascade.{Redo, conflict, redo, levels_by_granularity, get_threat_id_to_redo}
use tsg.Api.{Principal, of_dal, Response, fails, answers, with_session}

-- `_REGEN_STAGE`
abbrev pub regen_stage : RegenGranularity → WorkflowStage
regen_stage RegenGranularity.profile = WorkflowStage.profile
regen_stage RegenGranularity.threat = WorkflowStage.threat_identification
regen_stage RegenGranularity.threat_type = WorkflowStage.threat_identification
regen_stage RegenGranularity.threat_category = WorkflowStage.threat_identification
regen_stage RegenGranularity.scenario = WorkflowStage.scenario_generation

-- What the task is enqueued with.
pub record Job : Type 0 where
  pub session_id : ℕ
  pub subsystem_id : ℕ
  pub granularity : RegenGranularity
  pub target_ids : Option (List ℕ)
  pub epoch : ℕ
  pub user_note : Option String

abbrev is_conflict : Redo → Bool
is_conflict conflict = true
is_conflict (redo ids) = false

abbrev lock_running : ℕ → ℕ → Db → Bool
lock_running sid ss db = elim (find_where (is_cell sid ss SubsystemLevel.lock) db.stages) [
  | none ↦ false
  | some r ↦ r.status == StageStatus.running
]

-- What is checked before the session leaves REVIEW; the answer is the targets.
unfoldable pub check_regenerate :
    SessionRow
    → ℕ
    → RegenGranularity
    → (Db → Result (Option (List ℕ)))
    → Db
    → Result (Option (List ℕ))
check_regenerate x ss granularity resolve db = do
  raise_if (not (at_review x)) regenerate_conflict
  raise_if (not (any (λ u. u.id == ss) x.subsystems)) not_found
  ids ← resolve db
  raise_if (is_conflict (get_threat_id_to_redo x.session_id ss granularity ids db))
      regenerate_conflict
  raise_if (lock_running x.session_id ss db) regenerate_conflict
  ok ids

abbrev pub is_reviewed_session : ℕ → SessionRow → Bool
is_reviewed_session sid r =
    is_session sid r
    && r.session_status == SessionStatus.active
    && r.current_stage == WorkflowStage.review

abbrev pub regenerating : RegenGranularity → ℕ → SessionRow → SessionRow
regenerating granularity now r = record r {
  current_stage = regen_stage granularity;
  stage_status = StageStatus.running;
  updated_at = now;
}

-- The epoch is reserved and the cells are reset, once the session has left REVIEW.
abbrev pub reserve :
    SessionRow
    → ℕ
    → RegenGranularity
    → Option (List ℕ)
    → Option String
    → Bool × World
    → Response Job × World
reserve x ss granularity ids user_note (false, w) = (fails (of_dal regenerate_conflict), w)
reserve x ss granularity ids user_note (true, w) =
    let levels = levels_by_granularity granularity in
    let epoch = next_epoch x.session_id ss levels w.db in
    (
      answers (record {
        session_id = x.session_id;
        subsystem_id = ss;
        granularity = granularity;
        target_ids = ids;
        epoch = epoch;
        user_note = user_note;
      }),
      on_db (reset_stage_for_regen w.now x.session_id ss levels epoch) w,
    )

abbrev pub regenerate_checked :
    SessionRow
    → ℕ
    → RegenGranularity
    → Option String
    → Result (Option (List ℕ))
    → World
    → Response Job × World
regenerate_checked x ss granularity user_note (err e) w = (fails (of_dal e), w)
regenerate_checked x ss granularity user_note (ok ids) w =
    reserve x ss granularity ids user_note
      (cas_session (is_reviewed_session x.session_id) (regenerating granularity w.now) w)

-- `_do_regenerate`: the job that is enqueued. `resolve` finds the targets.
unfoldable pub do_regenerate :
    ℕ
    → ℕ
    → RegenGranularity
    → (Db → Result (Option (List ℕ)))
    → Option String
    → Principal
    → World
    → Response Job × World
do_regenerate sid ss granularity resolve note p = with_session sid p (λ x w.
    regenerate_checked x ss granularity note (check_regenerate x ss granularity resolve w.db) w)

module _ (py : Builtins) where
  -- `grounding.find_categories`, for one of the names: the active category of the least id whose name or
  -- code it is.
  abbrev has_key : String → ThreatCategoryRow → Bool
  has_key key r =
      r.is_active
      && (py.folded r.threat_category_name == key
          || elim r.threat_category_code [ none ↦ false | some code ↦ py.folded code == key ])

  abbrev first_id : List ThreatCategoryRow → Option ℕ
  first_id [] = none
  first_id (r ∷ rows) = some r.threat_category_id

  unfoldable pub find_categories : Db → String → Option ℕ
  find_categories db name =
      if py.folded name == ""
      then none
      else first_id (
          order_by (λ r. r.threat_category_id)
            (select_where (has_key (py.folded name)) db.threat_categories))

  abbrev add_category : Option ℕ → Result (List ℕ) → Result (List ℕ)
  add_category none rest = err not_found
  add_category (some i) (err e) = err e
  add_category (some i) (ok ids) = ok (i ∷ ids)

  -- `_resolve` of the categories route, whose names have no duplicates.
  unfoldable pub resolve_categories : List String → Db → Result (List ℕ)
  resolve_categories [] db = ok []
  resolve_categories (name ∷ names) db =
      let rest = resolve_categories names db in add_category (find_categories db name) rest
