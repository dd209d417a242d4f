-- ===== src/Pipeline/Frame.antt =====
-- The rows of the stage board that the work of app/pipeline/tasks.py may touch: work rows only.
pub mod Threats
pub mod Scenarios
use tsg.Base.{
  ℕ, suc, ◌≡◌, refl, String, Bool, true, false, Option, none, some, List, [], ◌∷◌, arith, ◌&&◌,
  ◌||◌, if◌then◌else◌, update_where,
}
use tsg.Enums.{StageStatus, SubsystemLevel, level_eq, level_iff}
use tsg.Json.{Json, Items, Fields, get}
use tsg.Models.{Db, StageRow, SessionRow, Subsystem}
use tsg.Dal.Stages.{is_cell, is_claimable, claimed, claim_stage, with_status, set_stage}
use tsg.Dal.Stages.Cells.{KeepsKey}
use tsg.Dal.Outputs.{Threat}
use tsg.Failure.{Failure, Attempt, returns, raises}
use tsg.World.{World, on_db, commit}
use tsg.Pipeline.Grounding.{GroundingResult, find_threat_in_library, ensure_text}
use tsg.Pipeline.Scoping.{Scored}
use tsg.Pipeline.Validation.{Expected, parse_json}
use tsg.Pipeline.Run.{Services, Prompt, Run, pure, act, read, ◌>>=◌, ask_ai, settle, hear}
use tsg.Pipeline.Keeps.{Keeps, ◌then_keeps◌, Keeps-if, Keeps-pure, Keeps-read}
use tsg.Pipeline.Stages.{claim, start_stage, save_profile, profile_work, write_profile}

abbrev SparesLocks : (StageRow → Bool) → Type 0
SparesLocks p = (r : StageRow) → r.level ≡ SubsystemLevel.lock → p r ≡ false

-- A property of the board that updates of work rows keep.
abbrev pub WorkStable : (List StageRow → Type 0) → Type 0
WorkStable P =
    (p : StageRow → Bool) (f : StageRow → StageRow)
    → KeepsKey f
    → SparesLocks p
    → (rows : List StageRow) → P rows
    → P (update_where p f rows)

-- It holds of the board that the transaction sees, and of the one that was committed.
pub record OnBoards (P : List StageRow → Type 0) (w : World) : Type 0 where
  pub now : P w.db.stages
  pub saved : P w.saved.stages

module _ (P : List StageRow → Type 0) (stable : WorkStable P) (sv : Services) where
  abbrev K : {A : Type 0} → Run A → Type 0
  K = Keeps (OnBoards P)

  pub claim-Keeps :
      (x : SessionRow) (ss : ℕ) (level : SubsystemLevel) (epoch task : ℕ)
      → ¬ (level ≡ SubsystemLevel.lock)
      → K (claim sv x ss level epoch task)
  unfolding claim_stage
  claim-Keeps x ss level epoch task work = record {
    at = λ w g. record {
      now =
          stable (λ r. is_cell x.session_id ss level r && is_claimable sv.settings epoch task r)
            (claimed sv.settings w.now task) (λ r. (refl, refl, refl))
            (λ r h. ground (arith, h, work, level_iff r.level level)) w.db.stages g.now;
      saved = g.saved;
    };
  }

  pub set_stage-stable :
      (now sid ss : ℕ) (level : SubsystemLevel) (status : StageStatus) (error : Option String)
      (db : Db)
      → ¬ (level ≡ SubsystemLevel.lock)
      → P db.stages
      → P (update_where (is_cell sid ss level) (with_status now status error) db.stages)
  set_stage-stable now sid ss level status error db work =
      stable (is_cell sid ss level) (with_status now status error) (λ r. (refl, refl, refl))
        (λ r h. ground (arith, h, work, level_iff r.level level)) db.stages

  pub ask_ai-Keeps :
      (x : SessionRow) (ss : ℕ) (stage : String) (expected : Expected) (prompt : Prompt)
      → K (ask_ai sv x ss stage expected prompt)
  unfolding ask_ai
  ask_ai-Keeps x ss stage expected prompt = record {
    at = λ w g. heard w g (sv.chat w.asked prompt);
  }
    where
      settled :
          (w : World)
          → OnBoards P w
          → (text : String) (reply : Option Json)
          → OnBoards P
              (settle sv x ss stage expected text reply (record w { asked = suc w.asked })).1
      settled w g text none = record { now = g.saved; saved = g.saved }
      settled w g text (some j) = record { now = g.now; saved = g.saved }

      heard :
          (w : World)
          → OnBoards P w
          → (reply : Option String)
          → OnBoards P (hear sv x ss stage expected reply (record w { asked = suc w.asked })).1
      heard w g none = record { now = g.now; saved = g.saved }
      heard w g (some text) = settled w g text (parse_json sv.py expected text)

  pub start_stage-Keeps :
      (x : SessionRow) (ss : ℕ) (level : SubsystemLevel) (epoch : ℕ)
      → K (act (start_stage x ss level epoch))
  start_stage-Keeps x ss level epoch = record { at = λ w g. record { now = g.now; saved = g.now } }

  save_profile-Keeps :
      (x : SessionRow) (sub : Subsystem) (epoch : ℕ) (profile : Json)
      → K (act (save_profile sv x sub epoch profile))
  unfolding save_profile set_stage
  save_profile-Keeps x sub epoch profile = record {
    at = λ w g. record {
      now =
          set_stage-stable w.now x.session_id sub.id SubsystemLevel.profile StageStatus.complete
            none w.db (λ e. cc) g.now;
      saved = g.saved;
    };
  }

  pub write_profile-Keeps :
      (x : SessionRow) (sub : Subsystem) (task epoch : ℕ) → K (write_profile sv x sub task epoch)
  unfolding write_profile profile_work
  write_profile-Keeps x sub task epoch =
      claim-Keeps x sub.id SubsystemLevel.profile epoch task (λ e. cc) then_keeps λ won.
      Keeps-if won
        (start_stage-Keeps x sub.id SubsystemLevel.profile epoch then_keeps λ _.
          ask_ai-Keeps x sub.id "profile" Expected.dict (Prompt.profile x.asset_name sub)
          then_keeps λ profile.
              save_profile-Keeps x sub epoch profile then_keeps λ _. Keeps-pure (some profile))
        (Keeps-pure none)
