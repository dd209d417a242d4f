-- ===== src/Pipeline/Cascade/Locks.antt =====
-- The locks of app/pipeline/cascade.py: what a regeneration leaves of them.
use tsg.Base.{ℕ, ◌≡◌, Option, none, some, List, [], ◌∷◌, ◌==◌, nat_eq, find_where}
use tsg.Enums.{StageStatus, SubsystemLevel, RegenGranularity}
use tsg.Models.{SessionRow, StageRow, Subsystem, ThreatRow}
use tsg.Dal.Stages.{set_stage}
use tsg.Dal.Stages.Cells.{UniqueCells}
use tsg.Dal.Stages.Mutex.{lock_status, Board, HasStatus}
use tsg.Failure.{Attempt, returns, raises}
use tsg.World.{World, ref_of}
use tsg.Pipeline.Grounding.{GroundingResult, find_threat_in_library}
use tsg.Pipeline.Run.{Services, Run, act}
use tsg.Pipeline.Keeps.{Keeps, ◌then_keeps◌, Keeps-if, Keeps-pure, Keeps-read}
use tsg.Pipeline.Frame.{WorkStable, OnBoards, claim-Keeps, set_stage-stable, write_profile-Keeps}
use tsg.Pipeline.Frame.Threats.{find_threats-Keeps}
use tsg.Pipeline.Frame.Scenarios.{write_scenarios-Keeps}
use tsg.Pipeline.Session.Locks.{with_lock-OnBoards}
use tsg.Pipeline.Outcome.Board.{decide_session_outcome-OnBoards}
use tsg.Pipeline.Cascade.{
  Redo, conflict, redo, or_empty, is_live, proposal_of, retire_lineage, replace_threat,
  settle_verdict, reground_row, reground_one_threat, reground_each, mark_threats,
}
use tsg.Pipeline.Cascade.Regenerate.{
  Request, ids_of, profile_fields, rewrite_scenarios, rewrite_new, redo_threats, redo_scope,
  redo_the_requested_parts, report_regeneration, resumable, targets, resume_scenarios, resume_work,
  redo_found, redo_work, finish_regeneration, resume_locked, regenerate_locked, regenerate_sub,
  run_regeneration,
}

module _ (sv : Services) (new_threat_id : ℕ → ℕ → ℕ → ℕ → ℕ) (P : List StageRow → Type 0)
    (stable : WorkStable P) where
  abbrev K : {A : Type 0} → Run A → Type 0
  K = Keeps (OnBoards P)

  reground_row-Keeps :
      (x : SessionRow) (sub : Subsystem) (epoch : ℕ) (o : Option ThreatRow)
      → K (reground_row sv new_threat_id x sub epoch o)
  unfolding replace_threat retire_lineage
  reground_row-Keeps x sub epoch none = record { at = λ w g. g }
  reground_row-Keeps x sub epoch (some t) = record {
    at = λ w g. verdict w g (
        find_threat_in_library sv.py sv.settings sv.models w.db x.sector_ids
          (proposal_of sv new_threat_id t));
  }
    where
      verdict :
          (w : World)
          → OnBoards P w
          → (r : Attempt GroundingResult)
          → OnBoards P (settle_verdict sv new_threat_id x sub t epoch w r).1
      verdict w g (raises e) = g
      verdict w g (returns r) = record { now = g.now; saved = g.saved }

  reground_one_threat-Keeps :
      (x : SessionRow) (sub : Subsystem) (threat epoch : ℕ)
      → K (reground_one_threat sv new_threat_id x sub threat epoch)
  unfolding reground_one_threat
  reground_one_threat-Keeps x sub threat epoch = record {
    at = λ w g.
        (reground_row-Keeps x sub epoch
            (find_where (is_live sv new_threat_id x.session_id threat) w.db.threats)).at
          w g;
  }

  reground_each-Keeps :
      (x : SessionRow) (sub : Subsystem) (threats : List ℕ) (epoch : ℕ)
      → K (reground_each sv new_threat_id x sub threats epoch)
  unfolding reground_each
  reground_each-Keeps x sub [] epoch = Keeps-pure []
  reground_each-Keeps x sub (threat ∷ rest) epoch =
      reground_one_threat-Keeps x sub threat epoch then_keeps λ new.
      reground_each-Keeps x sub rest epoch then_keeps λ more. Keeps-pure _

  mark_threats-Keeps :
      (x : SessionRow) (sub : Subsystem) (status : StageStatus)
      → K (act (mark_threats sv new_threat_id x sub status))
  unfolding set_stage
  mark_threats-Keeps x sub status = record {
    at = λ w g. record {
      now =
          set_stage-stable P stable sv w.now x.session_id sub.id SubsystemLevel.threats status none
            w.db (λ e. cc) g.now;
      saved = g.saved;
    };
  }

  rewrite_scenarios-Keeps :
      (x : SessionRow) (sub : Subsystem) (target : Option (List ℕ)) (epoch task : ℕ)
      → K (rewrite_scenarios sv new_threat_id x sub target epoch task)
  rewrite_scenarios-Keeps x sub target epoch task = Keeps-read _ then_keeps λ threats.
      write_scenarios-Keeps P stable sv x sub threats task epoch target then_keeps λ count.
      Keeps-pure tt

  rewrite_new-Keeps :
      (x : SessionRow) (sub : Subsystem) (new : List ℕ) (epoch task : ℕ)
      → K (rewrite_new sv new_threat_id x sub new epoch task)
  rewrite_new-Keeps x sub [] epoch task = Keeps-pure tt
  rewrite_new-Keeps x sub (t ∷ ts) epoch task =
      rewrite_scenarios-Keeps x sub (some (t ∷ ts)) epoch task

  redo_threats-Keeps :
      (x : SessionRow) (sub : Subsystem) (ids : List ℕ) (epoch task : ℕ)
      → K (redo_threats sv new_threat_id x sub ids epoch task)
  unfolding redo_threats
  redo_threats-Keeps x sub [] epoch task = Keeps-pure []
  redo_threats-Keeps x sub (t ∷ ts) epoch task =
      claim-Keeps P stable sv x sub.id SubsystemLevel.threats epoch task (λ e. cc) then_keeps λ won.
      Keeps-if won
        (reground_each-Keeps x sub (t ∷ ts) epoch then_keeps λ new.
          mark_threats-Keeps x sub StageStatus.complete then_keeps λ _. Keeps-pure new)
        (Keeps-pure [])

  redo_scope-Keeps :
      (x : SessionRow) (sub : Subsystem) (type_ids category_ids : List ℕ) (epoch task : ℕ)
      → K (redo_scope sv new_threat_id x sub type_ids category_ids epoch task)
  redo_scope-Keeps x sub type_ids category_ids epoch task = Keeps-read _ then_keeps λ profile.
      find_threats-Keeps P stable sv x sub profile task epoch type_ids category_ids
      then_keeps λ threats.
          write_scenarios-Keeps P stable sv x sub threats task epoch (some (ids_of threats))
          then_keeps λ count. Keeps-pure tt

  redo_the_requested_parts-Keeps :
      (x : SessionRow) (sub : Subsystem) (granularity : RegenGranularity) (ids : Option (List ℕ))
      (epoch task : ℕ)
      → K (redo_the_requested_parts sv new_threat_id x sub granularity ids epoch task)
  unfolding redo_the_requested_parts
  redo_the_requested_parts-Keeps x sub RegenGranularity.scenario ids epoch task =
      rewrite_scenarios-Keeps x sub ids epoch task
  redo_the_requested_parts-Keeps x sub RegenGranularity.threat ids epoch task =
      redo_threats-Keeps x sub (or_empty ids) epoch task then_keeps λ new.
      rewrite_new-Keeps x sub new epoch task
  redo_the_requested_parts-Keeps x sub RegenGranularity.threat_type ids epoch task =
      redo_scope-Keeps x sub (or_empty ids) [] epoch task
  redo_the_requested_parts-Keeps x sub RegenGranularity.threat_category ids epoch task =
      redo_scope-Keeps x sub [] (or_empty ids) epoch task
  redo_the_requested_parts-Keeps x sub RegenGranularity.profile ids epoch task =
      write_profile-Keeps P stable sv x sub task epoch then_keeps λ profile.
      find_threats-Keeps P stable sv x sub (profile_fields profile) task epoch [] []
      then_keeps λ threats.
          write_scenarios-Keeps P stable sv x sub threats task epoch none then_keeps λ count.
          Keeps-pure tt

  report_regeneration-Keeps :
      (x : SessionRow) (rq : Request) (ids resumed : List ℕ)
      → K (act (report_regeneration sv new_threat_id x rq ids resumed))
  report_regeneration-Keeps x rq ids resumed = record {
    at = λ w g. record { now = g.now; saved = g.now };
  }

  resume_scenarios-Keeps :
      (x : SessionRow) (sub : Subsystem) (rq : Request) (task : ℕ) (resumed : List ℕ)
      → K (resume_scenarios sv new_threat_id x sub rq task resumed)
  resume_scenarios-Keeps x sub rq task [] = Keeps-pure tt
  resume_scenarios-Keeps x sub rq task (t ∷ ts) =
      rewrite_scenarios-Keeps x sub (some (t ∷ ts)) rq.epoch task

  resume_work-Keeps :
      (x : SessionRow) (sub : Subsystem) (rq : Request) (task : ℕ)
      → K (resume_work sv new_threat_id x sub rq task)
  unfolding resume_work
  resume_work-Keeps x sub rq task = Keeps-read _ then_keeps λ resumed.
      resume_scenarios-Keeps x sub rq task resumed then_keeps λ _.
      report_regeneration-Keeps x rq [] resumed

  redo_found-Keeps :
      (x : SessionRow) (sub : Subsystem) (rq : Request) (task : ℕ) (found : Redo)
      → K (redo_found sv new_threat_id x sub rq task found)
  redo_found-Keeps x sub rq task conflict = record { at = λ w g. g }
  redo_found-Keeps x sub rq task (redo ids) =
      redo_the_requested_parts-Keeps x sub rq.granularity ids rq.epoch task then_keeps λ _.
      report_regeneration-Keeps x rq (or_empty ids) []

  redo_work-Keeps :
      (x : SessionRow) (sub : Subsystem) (rq : Request) (task : ℕ)
      → K (redo_work sv new_threat_id x sub rq task)
  unfolding redo_work
  redo_work-Keeps x sub rq task =
      Keeps-read _ then_keeps λ found. redo_found-Keeps x sub rq task found

module _ (sv : Services) (new_threat_id : ℕ → ℕ → ℕ → ℕ → ℕ) (a b : ℕ) (status : StageStatus)
    (x : SessionRow) (rq : Request) (task : ℕ) where
  abbrev B : World → Type 0
  B = OnBoards (Board a b (HasStatus status))

  finish_regeneration-OnBoards : (w : World) → B w → B (finish_regeneration sv new_threat_id x w).1
  finish_regeneration-OnBoards w g = decide_session_outcome-OnBoards _ sv.uuid4 (ref_of x) w g

  resume_locked-OnBoards :
      (sub : Subsystem) (w : World) (resumed : List ℕ)
      → B w
      → B (resume_locked sv new_threat_id x sub rq task w resumed).1
  resume_locked-OnBoards sub w [] g = finish_regeneration-OnBoards w g
  resume_locked-OnBoards sub w (t ∷ ts) g = finish_regeneration-OnBoards _ (
      with_lock-OnBoards sv x a b status sub.id (resume_work sv new_threat_id x sub rq task)
        (λ P stable. resume_work-Keeps sv new_threat_id P stable x sub rq task) task w g)

  regenerate_locked-OnBoards :
      (sub : Subsystem) (w : World) (found : Redo)
      → B w
      → B (regenerate_locked sv new_threat_id x sub rq task w found).1
  regenerate_locked-OnBoards sub w conflict g =
      resume_locked-OnBoards sub w (resumable sv new_threat_id x rq w.db) g
  regenerate_locked-OnBoards sub w (redo ids) g = finish_regeneration-OnBoards _ (
      with_lock-OnBoards sv x a b status sub.id (redo_work sv new_threat_id x sub rq task)
        (λ P stable. redo_work-Keeps sv new_threat_id P stable x sub rq task) task w g)

  regenerate_sub-OnBoards :
      (w : World) (o : Option Subsystem) → B w → B (regenerate_sub sv new_threat_id x rq task w o).1
  regenerate_sub-OnBoards w none g = finish_regeneration-OnBoards w g
  regenerate_sub-OnBoards w (some sub) g =
      regenerate_locked-OnBoards sub w (targets sv new_threat_id x rq w.db) g

-- A regeneration of any granularity, whatever the language model answers and whichever step raises,
-- leaves every lock in the status in which it found it, in the transaction and in what is committed:
-- the lock that it took is given back, and one that an accept or another task holds stays held. The
-- board has at most one row for each cell.
pub run_regeneration_locks :
    (sv : Services) (new_threat_id : ℕ → ℕ → ℕ → ℕ → ℕ) (x : SessionRow) (rq : Request) (task : ℕ)
    (w : World) (a b : ℕ) (status : StageStatus)
    → UniqueCells w.db
    → UniqueCells w.saved
    → lock_status a b w.db ≡ some status
    → lock_status a b w.saved ≡ some status
    → let w' = (run_regeneration sv new_threat_id x rq task w).1 in
      (lock_status a b w'.db ≡ some status) × (lock_status a b w'.saved ≡ some status)
unfolding run_regeneration
run_regeneration_locks sv new_threat_id x rq task w a b status u u' e e' =
    let g =
      regenerate_sub-OnBoards sv new_threat_id a b status x rq task w
        (find_where (λ s. s.id == rq.subsystem_id) x.subsystems)
        (record { now = (u, e); saved = (u', e') }) in
    (g.now.1, g.saved.1)
