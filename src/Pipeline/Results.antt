-- ===== src/Pipeline/Results.antt =====
-- What the stages of app/pipeline/tasks.py leave in the tables of their results where they return.
pub mod Threats
pub mod Scenarios
pub mod Resumed
use tsg.Base.{
  ℕ, suc, ◌≡◌, refl, String, Bool, true, false, Option, none, some, List, [], ◌∷◌, arith, ◌&&◌,
  ◌==◌, if◌then◌else◌, nat_eq, find_where, count_where, count_where_spent,
}
use tsg.Enums.{SubsystemLevel}
use tsg.Json.{Json}
use tsg.Models.{Db, SessionRow, Subsystem, ProfileRow, ThreatRow, ScopedRow, OutputRow}
use tsg.Dal.Outputs.{is_current, supersede, get_active_profile, profile_generation}
use tsg.Dal.Stages.{claim_stage, set_stage}
use tsg.Failure.{returns, raises}
use tsg.World.{World}
use tsg.Pipeline.Validation.{Expected, parse_json}
use tsg.Pipeline.Run.{Services, Prompt, Run, pure, act, read, ask_ai, settle, hear}
use tsg.Pipeline.Yields.{Yields, Returned, ◌then_yields◌, Yields-if, Yields-pure, Yields-returns}
use tsg.Pipeline.Stages.{save_profile, start_stage, claim, write_profile, profile_work}

-- A property of the rows that the stages write.
abbrev pub Rows : Type 1
Rows = List ProfileRow → List ThreatRow → List ScopedRow → List OutputRow → Type 0

abbrev pub OnRows : Rows → World → Type 0
OnRows R w = R w.db.profiles w.db.threats w.db.scoped w.db.outputs

module _ (sv : Services) (R : Rows) where
  pub ask_ai-Yields :
      (x : SessionRow) (ss : ℕ) (stage : String) (expected : Expected) (prompt : Prompt)
      → Yields (OnRows R) (ask_ai sv x ss stage expected prompt) (λ _. OnRows R)
  unfolding ask_ai
  ask_ai-Yields x ss stage expected prompt = record {
    at = λ w g. heard w g (sv.chat w.asked prompt);
  }
    where
      settled :
          (w : World)
          → OnRows R w
          → (text : String) (reply : Option Json)
          → Returned
              (λ _. OnRows R)
              (settle sv x ss stage expected text reply (record w { asked = suc w.asked }))
      settled w g text none = tt
      settled w g text (some j) = g

      heard :
          (w : World)
          → OnRows R w
          → (reply : Option String)
          → Returned
              (λ _. OnRows R)
              (hear sv x ss stage expected reply (record w { asked = suc w.asked }))
      heard w g none = tt
      heard w g (some text) = settled w g text (parse_json sv.py expected text)

-- The claim of a stage and its start leave the rows alone.
pub start_stage-Yields :
    (R : Rows) (x : SessionRow) (ss : ℕ) (level : SubsystemLevel) (epoch : ℕ)
    → Yields (OnRows R) (act (start_stage x ss level epoch)) (λ _. OnRows R)
start_stage-Yields R x ss level epoch = record { at = λ w g. g }

pub claim-Yields :
    (R : Rows) (sv : Services) (x : SessionRow) (ss : ℕ) (level : SubsystemLevel) (epoch task : ℕ)
    → Yields (OnRows R) (claim sv x ss level epoch task) (λ _. OnRows R)
unfolding claim_stage
claim-Yields R sv x ss level epoch task = record { at = λ w g. g }

-- The current profile of a supporting system, where a stage gave one.
abbrev pub HasProfile : SessionRow → ℕ → Option Json → World → Type 0
HasProfile x ss none w = Unit
HasProfile x ss (some j) w =
    (get_active_profile x.session_id ss w.db ≡ some j)
    × (count_where (is_current x.session_id ss) w.db.profiles ≡ 1)

module _ (sv : Services) (x : SessionRow) (sub : Subsystem) (task epoch : ℕ) where
  save_profile-Yields :
      (j : Json)
      → Yields
          (λ w. Unit {0})
          (act (save_profile sv x sub epoch j))
          (λ _. HasProfile x sub.id (some j))
  unfolding save_profile set_stage get_active_profile supersede
  save_profile-Yields j = record {
    at = λ w g. (
      ground arith,
      ground (
        arith,
        count_where_spent (is_current x.session_id sub.id) (λ r. record r { superseded = true })
            (λ r h. ground arith) w.db.profiles,
      ),
    );
  }

  pub write_profile-Yields :
      Yields (λ w. Unit {0}) (write_profile sv x sub task epoch) (HasProfile x sub.id)
  unfolding write_profile profile_work
  write_profile-Yields =
      claim-Yields (λ _ _ _ _. Unit) sv x sub.id SubsystemLevel.profile epoch task
      then_yields λ won.
          Yields-if won
            (start_stage-Yields (λ _ _ _ _. Unit) x sub.id SubsystemLevel.profile epoch
              then_yields λ _.
                  ask_ai-Yields sv (λ _ _ _ _. Unit) x sub.id "profile" Expected.dict
                    (Prompt.profile x.asset_name sub)
                  then_yields λ j.
                      save_profile-Yields j then_yields λ _. Yields-pure (some j) (λ w h. h))
            (Yields-pure none (λ w g. tt))

-- A profile that `write_profile` returns is the one that `get_active_profile` reads afterwards, and
-- the supporting system has no other current profile.
pub write_profile_current :
    (sv : Services) (x : SessionRow) (sub : Subsystem) (task epoch : ℕ) (w : World) (j : Json)
    → (write_profile sv x sub task epoch w).0 ≡ returns (some j)
    → let w' = (write_profile sv x sub task epoch w).1 in
      (get_active_profile x.session_id sub.id w'.db ≡ some j)
      × (count_where (is_current x.session_id sub.id) w'.db.profiles ≡ 1)
write_profile_current sv x sub task epoch w j e =
    Yields-returns (some j) w (write_profile-Yields sv x sub task epoch) tt e
