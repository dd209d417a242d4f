-- ===== src/Dal/Stages/Attempts.antt =====
-- The cap on the attempts of a stage: `claim_stage` and `set_stage` of app/db/dal.py in sequence.
use tsg.Base.{ℕ, suc, String, Option, List, [], ◌∷◌, nat_eq, if◌then◌else◌}
use tsg.Enums.{SubsystemLevel, StageStatus, level_eq}
use tsg.Models.{Db}
use tsg.Dal.Settings.{Settings}
use tsg.Dal.Stages.{claim_stage, set_stage}

-- What happens to a cell within one epoch: a claim by a task, or a new status.
pub data Step : Type 0 where
  claims : ℕ → ℕ → ℕ → Step
  settles : ℕ → StageStatus → Option String → Step

module _ (s : Settings) (sid ss : ℕ) (level : SubsystemLevel) where
  -- The claims that are won along a sequence of steps.
  unfoldable pub wins : List Step → Db → ℕ
  wins [] db = 0
  wins (claims now epoch task ∷ rest) db =
      let (won, db') = claim_stage s now sid ss level epoch task db in
      let more = wins rest db' in if won then suc more else more
  wins (settles now status error ∷ rest) db = wins rest (set_stage now sid ss level status error db)
