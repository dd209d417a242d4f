-- ===== src/Pipeline/Cascade.antt =====
-- app/pipeline/cascade.py: which rows a regeneration is about, and how one threat is matched anew.
pub mod Regenerate
pub mod Locks
pub mod Resume
pub mod Redelivery
use tsg.Base.{
  ℕ, String, Bool, true, false, not, ◌&&◌, Option, none, some, List, [], ◌∷◌, ◌++◌, map, ◌==◌,
  if◌then◌else◌, nat_eq, contains, all, distinct, select_where, find_where,
}
use tsg.Enums.{
  WorkflowStage, StageStatus, SubsystemLevel, GroundingStatus, AuditEventType, RegenGranularity,
}
use tsg.Json.{Json, Items, Fields}
use tsg.Models.{Db, SessionRow, Subsystem, ThreatRow, ScopedRow, OutputRow, AuditDetail}
use tsg.Dal.Outputs.{
  is_current, active_threats, supersede_by_threat, active_scoped_threat_id,
  supersede_by_scoped_threat, threat_generation, scoped_generation, output_generation,
  threat_per_threat, scoped_per_threat,
}
use tsg.Dal.Stages.{set_stage}
use tsg.Dal.Library.{active_threat_types, active_threat_categories}
use tsg.Failure.{Attempt, returns, raises}
use tsg.World.{World, ref_of, AuditEntry, plain_entry, on_db, audit}
use tsg.Pipeline.Grounding.{GroundingResult, find_threat_in_library}
use tsg.Pipeline.Run.{Services, Run, pure, act, read, ◌>>=◌, ◌>>◌}
use tsg.Pipeline.Stages.{claim, threat_row, insert_threat}

-- `LEVELS_BY_GRANULARITY`
abbrev pub levels_by_granularity : RegenGranularity → List SubsystemLevel
levels_by_granularity RegenGranularity.scenario = SubsystemLevel.scenarios ∷ []
levels_by_granularity RegenGranularity.threat =
    SubsystemLevel.threats ∷ SubsystemLevel.scenarios ∷ []
levels_by_granularity RegenGranularity.threat_type =
    SubsystemLevel.threats ∷ SubsystemLevel.scenarios ∷ []
levels_by_granularity RegenGranularity.threat_category =
    SubsystemLevel.threats ∷ SubsystemLevel.scenarios ∷ []
levels_by_granularity RegenGranularity.profile =
    SubsystemLevel.profile ∷ SubsystemLevel.threats ∷ SubsystemLevel.scenarios ∷ []

-- `get_threat_id_to_redo`: the rows asked for (`none` for a profile), or a RegenerateConflict.
pub data Redo : Type 0 where
  conflict : Redo
  redo : Option (List ℕ) → Redo

-- The join of the outputs asked for with their scoped threats: (OutputID, ThreatID).
abbrev with_threat : OutputRow → List ScopedRow → List (ℕ × ℕ)
with_threat o [] = []
with_threat o (st ∷ sts) =
    let rest = with_threat o sts in
    if o.scoped_threat_id == st.scoped_threat_id then (o.output_id, st.threat_id) ∷ rest else rest

unfoldable pub threats_of_outputs : List OutputRow → List ScopedRow → List (ℕ × ℕ)
threats_of_outputs [] sts = []
threats_of_outputs (o ∷ os) sts = with_threat o sts ++ threats_of_outputs os sts

-- All or nothing: a missing id is a conflict.
abbrev pub unless_missing : List ℕ → List ℕ → List ℕ → Redo
unless_missing ids found answer =
    if all (contains found) ids then redo (some (distinct answer)) else conflict

unfoldable pub lookup_targets : ℕ → ℕ → RegenGranularity → List ℕ → Db → Redo
lookup_targets sid ss RegenGranularity.scenario ids db =
    let found =
      threats_of_outputs
        (select_where (λ o. contains ids o.output_id && is_current sid ss o) db.outputs)
        db.scoped in
    unless_missing ids (map (λ p. p.0) found) (map (λ p. p.1) found)
lookup_targets sid ss RegenGranularity.threat ids db =
    let found =
      map (λ t. t.threat_id)
        (select_where (λ t. contains ids t.threat_id && is_current sid ss t) db.threats) in
    unless_missing ids found found
lookup_targets sid ss RegenGranularity.threat_type ids db =
    let found = map (λ r. r.threat_type_id) (active_threat_types ids db) in
    unless_missing ids found found
lookup_targets sid ss RegenGranularity.threat_category ids db =
    let found = map (λ r. r.threat_category_id) (active_threat_categories ids db) in
    unless_missing ids found found
lookup_targets sid ss RegenGranularity.profile ids db = redo none

abbrev pub or_empty : Option (List ℕ) → List ℕ
or_empty none = []
or_empty (some ids) = ids

abbrev pub is_profile : RegenGranularity → Bool
is_profile RegenGranularity.profile = true
is_profile _ = false

unfoldable pub get_threat_id_to_redo : ℕ → ℕ → RegenGranularity → Option (List ℕ) → Db → Redo
get_threat_id_to_redo sid ss granularity target_ids db =
    if is_profile granularity then redo none else elim (distinct (or_empty target_ids)) [
      | [] ↦ conflict
      | i ∷ is ↦ lookup_targets sid ss granularity (i ∷ is) db
    ]

-- `uuid5`, a hash of the session, the subsystem, the old threat and the epoch.
module _ (sv : Services) (new_threat_id : ℕ → ℕ → ℕ → ℕ → ℕ) where
  abbrev name_json : Option String → Json
  name_json none = Json.null
  name_json (some name) = Json.str name

  abbrev actor_items : List String → Items
  actor_items [] = Items.nil
  actor_items (a ∷ rest) = Items.cons (Json.str a) (actor_items rest)

  -- The proposal that the threat was made from.
  abbrev pub proposal_of : ThreatRow → Fields
  proposal_of t = Fields.field "category" (Json.str t.threat_category) (
      Fields.field "type" (Json.str t.threat_type) (
        Fields.field "name" (name_json t.threat_name)
          (Fields.field "actors" (Json.arr (actor_items t.actors)) Fields.end)))

  -- The old threat with its scoped threat and its scenario.
  unfoldable pub retire_lineage : ℕ → ℕ → ℕ → Db → Db
  retire_lineage sid ss threat db =
      let scoped_id = active_scoped_threat_id sid ss threat db.scoped in
      record db {
        threats = supersede_by_threat sid ss threat db.threats;
        scoped = supersede_by_threat sid ss threat db.scoped;
        outputs = elim scoped_id [
          | none ↦ db.outputs
          | some i ↦ supersede_by_scoped_threat sid ss i db.outputs
        ];
      }

  abbrev pub regrounded_entry : ℕ → ℕ → ℕ → AuditEntry
  regrounded_entry ss old new = record (plain_entry AuditEventType.threat_regrounded) {
    stage = some WorkflowStage.threat_identification;
    subsystem_id = some ss;
    detail = AuditDetail.regrounded old new;
  }

  abbrev pub is_live : ℕ → ℕ → ThreatRow → Bool
  is_live sid threat t = t.threat_id == threat && t.session_id == sid && not t.superseded

  -- The threat with its new verdict.
  unfoldable pub replace_threat :
      SessionRow → Subsystem → ThreatRow → ℕ → GroundingResult → World → World
  replace_threat x sub t epoch g w =
      let new = new_threat_id x.session_id sub.id t.threat_id epoch in
      audit sv.uuid4 (ref_of x) (regrounded_entry sub.id t.threat_id new) (
        insert_threat sv
          (threat_row sv x sub.id t.threat_category t.threat_type t.threat_name g new w)
          (on_db (retire_lineage x.session_id sub.id t.threat_id) w))

  abbrev pub settle_verdict :
      SessionRow
      → Subsystem
      → ThreatRow
      → ℕ
      → World
      → Attempt GroundingResult
      → Attempt (Option ℕ) × World
  settle_verdict x sub t epoch w (raises e) = (raises e, w)
  settle_verdict x sub t epoch w (returns g) = (
    returns (some (new_threat_id x.session_id sub.id t.threat_id epoch)),
    replace_threat x sub t epoch g w,
  )

  abbrev pub reground_row : SessionRow → Subsystem → ℕ → Option ThreatRow → Run (Option ℕ)
  reground_row x sub epoch none w = (returns none, w)
  reground_row x sub epoch (some t) w =
      settle_verdict x sub t epoch w
        (find_threat_in_library sv.py sv.settings sv.models w.db x.sector_ids (proposal_of t))

  -- `_reground_one_threat`
  unfoldable pub reground_one_threat : SessionRow → Subsystem → ℕ → ℕ → Run (Option ℕ)
  reground_one_threat x sub threat epoch w =
      reground_row x sub epoch (find_where (is_live x.session_id threat) w.db.threats) w

  abbrev pub mark_threats : SessionRow → Subsystem → StageStatus → World → World
  mark_threats x sub status w =
      on_db (set_stage w.now x.session_id sub.id SubsystemLevel.threats status none) w

  abbrev status_of : ℕ → Db → Option GroundingStatus
  status_of threat db = elim (find_where (λ t. t.threat_id == threat) db.threats) [
    | none ↦ none
    | some t ↦ some t.grounding_status
  ]

  abbrev close_recheck :
      SessionRow → Subsystem → Option ℕ → Run (Option (ℕ × Option GroundingStatus))
  close_recheck x sub none = do act (mark_threats x sub StageStatus.error); pure none
  close_recheck x sub (some new) = do
    act (mark_threats x sub StageStatus.complete)
    status ← read (λ w. status_of new w.db)
    pure (some (new, status))

  abbrev recheck_work : SessionRow → Subsystem → ℕ → ℕ → Run (Option (ℕ × Option GroundingStatus))
  recheck_work x sub threat epoch = do
    new ← reground_one_threat x sub threat epoch
    close_recheck x sub new

  -- `recheck_threat_in_library`
  unfoldable pub recheck_threat_in_library :
      SessionRow → Subsystem → ℕ → ℕ → ℕ → Run (Option (ℕ × Option GroundingStatus))
  recheck_threat_in_library x sub threat task epoch = do
    won ← claim sv x sub.id SubsystemLevel.threats epoch task
    if won then recheck_work x sub threat epoch else pure none

  -- The loop over the threats of one request, in the one claimed cell.
  unfoldable pub reground_each : SessionRow → Subsystem → List ℕ → ℕ → Run (List ℕ)
  reground_each x sub [] epoch = pure []
  reground_each x sub (threat ∷ rest) epoch = do
    new ← reground_one_threat x sub threat epoch
    more ← reground_each x sub rest epoch
    pure (elim new [ none ↦ more | some i ↦ i ∷ more ])

  -- `find_threat_to_resume_after_crash`: the replacements of this epoch that are current.
  abbrev pub candidates : ℕ → ℕ → List ℕ → ℕ → List ℕ
  candidates sid ss [] epoch = []
  candidates sid ss (t ∷ ts) epoch = new_threat_id sid ss t epoch ∷ candidates sid ss ts epoch

  unfoldable pub find_threat_to_resume_after_crash :
      ℕ → ℕ → RegenGranularity → Option (List ℕ) → ℕ → Db → List ℕ
  find_threat_to_resume_after_crash sid ss RegenGranularity.threat target_ids epoch db =
      let active = map (λ t. t.threat_id) (active_threats sid ss db) in
      distinct (select_where (contains active) (candidates sid ss (or_empty target_ids) epoch))
  find_threat_to_resume_after_crash sid ss RegenGranularity.scenario target_ids epoch db = []
  find_threat_to_resume_after_crash sid ss RegenGranularity.threat_type target_ids epoch db = []
  find_threat_to_resume_after_crash sid ss RegenGranularity.threat_category target_ids epoch db = []
  find_threat_to_resume_after_crash sid ss RegenGranularity.profile target_ids epoch db = []
