-- ===== src/Pipeline/Session/Board.antt =====
-- One supporting system of app/pipeline/tasks.py and the stage board: work rows only are touched.
use tsg.Base.{ℕ, refl, Bool, true, false, none, some, List, [], arith, ◌&&◌, if◌then◌else◌, nat_eq}
use tsg.Enums.{StageStatus, SubsystemLevel, level_eq, level_iff, stage_status_eq}
use tsg.Models.{StageRow, SessionRow, Subsystem}
use tsg.Dal.Stages.{in_levels, is_in_flight, with_status, subsystem_has_pending_work}
use tsg.Failure.{Attempt, returns, raises}
use tsg.World.{World, ref_of, commit, publish, audit}
use tsg.Pipeline.Run.{Services, Run, act}
use tsg.Pipeline.Keeps.{Keeps, ◌then_keeps◌, Keeps-read}
use tsg.Pipeline.Frame.{WorkStable, OnBoards, write_profile-Keeps}
use tsg.Pipeline.Frame.Threats.{find_threats-Keeps}
use tsg.Pipeline.Frame.Scenarios.{write_scenarios-Keeps}
use tsg.Pipeline.Stages.{work_levels}
use tsg.Pipeline.Session.{
  generated_entry, started_event, advanced_entry, client_message, first_epoch, show_index, announce,
  profile_now, threats_now, run_stages, record_failure, flag_unfinished, recover,
}

module _ (P : List StageRow → Type 0) (stable : WorkStable P) (sv : Services) where
  abbrev K : {A : Type 0} → Run A → Type 0
  K = Keeps (OnBoards P)

  show_index-Keeps : (sid idx : ℕ) → K (act (show_index sv sid idx))
  show_index-Keeps sid idx = record { at = λ w g. record { now = g.now; saved = g.saved } }

  commit-Keeps : K (act commit)
  commit-Keeps = record { at = λ w g. record { now = g.now; saved = g.now } }

  announce-Keeps : (x : SessionRow) (ss idx : ℕ) → K (act (announce sv x ss idx))
  unfolding announce
  announce-Keeps x ss idx = record {
    at = λ w g. pick w g (subsystem_has_pending_work x.session_id ss w.db);
  }
    where
      pick :
          (w : World)
          → OnBoards P w
          → (b : Bool)
          → OnBoards P (
              if b
              then publish
                  (started_event sv x.session_id ss idx w.now)
                  (audit sv.uuid4 (ref_of x) (advanced_entry sv ss idx) w)
              else w)
      pick w g true = record { now = g.now; saved = g.saved }
      pick w g false = g

  generated-Keeps :
      (x : SessionRow) (ss count : ℕ)
      → K (act (audit sv.uuid4 (ref_of x) (generated_entry sv ss count)))
  generated-Keeps x ss count = record { at = λ w g. record { now = g.now; saved = g.saved } }

  pub run_stages-Keeps :
      (x : SessionRow) (sub : Subsystem) (idx task : ℕ) → K (run_stages sv x sub idx task)
  unfolding run_stages
  run_stages-Keeps x sub idx task = show_index-Keeps x.session_id idx then_keeps λ _.
      announce-Keeps x sub.id idx then_keeps λ _.
      write_profile-Keeps P stable sv x sub task first_epoch then_keeps λ new_profile.
      commit-Keeps then_keeps λ _.
      Keeps-read (profile_now sv x.session_id sub.id new_profile) then_keeps λ profile.
      find_threats-Keeps P stable sv x sub profile task first_epoch [] [] then_keeps λ new_threats.
      commit-Keeps then_keeps λ _.
      Keeps-read (threats_now sv x.session_id sub.id new_threats) then_keeps λ threats.
      write_scenarios-Keeps P stable sv x sub threats task first_epoch none then_keeps λ count.
      generated-Keeps x sub.id count then_keeps λ _. commit-Keeps

  pub recover-OnBoards :
      (x : SessionRow) (ss : ℕ) (r : Attempt (Unit {0}) × World)
      → OnBoards P r.1
      → OnBoards P (recover sv x ss r)
  unfolding recover record_failure flag_unfinished
  recover-OnBoards x ss (returns _, w) g = g
  recover-OnBoards x ss (raises e, w) g =
      let h =
        stable (λ r. in_levels x.session_id ss work_levels r && is_in_flight r.status)
          (with_status w.now StageStatus.error (some (client_message sv e)))
          (λ r. (refl, refl, refl))
          (λ r h. ground (arith, h, level_iff r.level SubsystemLevel.lock)) w.saved.stages
          g.saved in
      record { now = h; saved = h }
