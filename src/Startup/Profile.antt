-- ===== src/Startup/Profile.antt =====
-- The first stage of app/pipeline/tasks.py against the start-up check of app/db/invariants.py.
use tsg.Base.{
  ℕ, ◌≡◌, String, Bool, not, ◌&&◌, Option, none, some, List, [], ◌∷◌, arith, ◌==◌, nat_eq,
  string_eq, pair_eq, if◌then◌else◌, count_where,
}
use tsg.Enums.{SubsystemLevel}
use tsg.Json.{Json}
use tsg.Models.{SessionRow, Subsystem, ProfileRow}
use tsg.Dal.Outputs.{supersede, profile_generation}
use tsg.Dal.Stages.{set_stage}
use tsg.Failure.{returns}
use tsg.World.{World}
use tsg.Pipeline.Validation.{Expected}
use tsg.Pipeline.Run.{Services, Prompt, act}
use tsg.Pipeline.Yields.{Yields, ◌then_yields◌, Yields-if, Yields-pure, Yields-returns}
use tsg.Pipeline.Stages.{save_profile, write_profile, profile_work}
use tsg.Pipeline.Results.{Rows, OnRows, ask_ai-Yields, start_stage-Yields, claim-Yields}
use tsg.Startup.{Engine, profile_columns, output_columns, verify_startup}
use tsg.Startup.Active.{UniqueActive}
use tsg.Startup.Boot.{verify_startup_lem}

abbrev Once : Rows
Once profiles threats scoped outputs =
    UniqueActive profile_columns (λ r. r.superseded) profiles
    × UniqueActive output_columns (λ r. r.superseded) outputs

-- A current row of the group `k`.
abbrev of_group : ℕ × ℕ → ProfileRow → Bool
of_group k r = not r.superseded && profile_columns r == k

-- Retiring a group empties it and touches no other group.
supersede_groups :
    (sid ss : ℕ) (k : ℕ × ℕ) (rows : List ProfileRow)
    → count_where (of_group k) (supersede sid ss rows)
      ≡ (if (sid, ss) == k then 0 else count_where (of_group k) rows)
unfolding supersede
supersede_groups sid ss k [] = ground arith
supersede_groups sid ss k (r ∷ rows) = ground (arith, supersede_groups sid ss k rows)

module _ (sv : Services) (x : SessionRow) (sub : Subsystem) (task epoch : ℕ) where
  save_profile-Once :
      (j : Json) → Yields (OnRows Once) (act (save_profile sv x sub epoch j)) (λ _. OnRows Once)
  unfolding save_profile set_stage
  save_profile-Once j = record {
    at = λ w g.
        ((λ k. ground (arith, g.0 k, supersede_groups x.session_id sub.id k w.db.profiles)), g.1);
  }

  write_profile-Once : Yields (OnRows Once) (write_profile sv x sub task epoch) (λ _. OnRows Once)
  unfolding write_profile profile_work
  write_profile-Once =
      claim-Yields Once sv x sub.id SubsystemLevel.profile epoch task then_yields λ won.
      Yields-if won
        (start_stage-Yields Once x sub.id SubsystemLevel.profile epoch then_yields λ _.
          ask_ai-Yields sv Once x sub.id "profile" Expected.dict (Prompt.profile x.asset_name sub)
          then_yields λ j. save_profile-Once j then_yields λ _. Yields-pure (some j) (λ w h. h))
        (Yields-pure none (λ w g. g))

-- A database that the start-up check passes still passes it after a run of `write_profile` that
-- returns, with or without a profile.
pub write_profile_boots :
    (sv : Services) (x : SessionRow) (sub : Subsystem) (task epoch : ℕ) (w : World)
    (upper : String → String) (engine : Engine) (result : Option Json)
    → verify_startup upper (record engine { tables = w.db }) ≡ none
    → (write_profile sv x sub task epoch w).0 ≡ returns result
    → let w' = (write_profile sv x sub task epoch w).1 in
      verify_startup upper (record engine { tables = w'.db }) ≡ none
write_profile_boots sv x sub task epoch w upper engine result boots e =
    let w' = (write_profile sv x sub task epoch w).1 in
    let passed = (verify_startup_lem upper (record engine { tables = w.db })).0 boots in
    (verify_startup_lem upper (record engine { tables = w'.db })).1
      (passed.0, Yields-returns result w (write_profile-Once sv x sub task epoch) passed.1 e)
