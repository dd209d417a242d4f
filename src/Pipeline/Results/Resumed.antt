-- ===== src/Pipeline/Results/Resumed.antt =====
-- A stage of app/pipeline/tasks.py that was finished before, or that has used up its attempts.
use tsg.Base.{
  ℕ, ◌≡◌, Bool, false, Option, none, some, List, [], arith, ap, ◌&&◌, if◌then◌else◌, count_where,
  update_where_none,
}
use tsg.Enums.{SubsystemLevel}
use tsg.Json.{Fields}
use tsg.Models.{SessionRow, StageRow, Subsystem}
use tsg.Dal.Stages.{claim_stage, is_cell, is_claimable}
use tsg.Dal.Stages.Cells.{cell, UniqueCells, count_cell}
use tsg.Dal.Outputs.{Threat}
use tsg.Failure.{returns}
use tsg.World.{World}
use tsg.Pipeline.Run.{Services, carry_on, pure}
use tsg.Pipeline.Stages.{claim, write_profile, profile_work, find_threats, threats_work}
use tsg.Pipeline.Scenarios.{write_scenarios, scenarios_work}

-- The claim of a cell that is not claimable is lost, and writes nothing.
claim_lost :
    (sv : Services) (x : SessionRow) (ss : ℕ) (level : SubsystemLevel) (epoch task : ℕ) (w : World)
    (r : StageRow)
    → UniqueCells w.db
    → cell x.session_id ss level w.db ≡ some r
    → is_claimable sv.settings epoch task r ≡ false
    → claim sv x ss level epoch task w ≡ (returns false, w)
unfolding claim_stage
claim_lost sv x ss level epoch task w r u e spent =
    rw (update_where_none p _ w.db.stages none_hit, none_hit)
  where
    p : StageRow → Bool
    p r = is_cell x.session_id ss level r && is_claimable sv.settings epoch task r

    none_hit : count_where p w.db.stages ≡ 0
    none_hit =
        ground (arith, e, spent, count_cell p x.session_id ss level w.db (λ r h. ground arith) u)

-- On a supporting system none of whose work cells can be claimed, each stage returns nothing new and
-- leaves the world as it was: it asks nothing, writes nothing and publishes nothing. The board has at
-- most one row for each cell, and `find_threats` is not restricted to types or categories.
pub stages_resumed :
    (sv : Services) (x : SessionRow) (sub : Subsystem) (profile : Fields) (threats : List Threat)
    (task epoch : ℕ) (target : Option (List ℕ)) (w : World) (p t s : StageRow)
    → UniqueCells w.db
    → cell x.session_id sub.id SubsystemLevel.profile w.db ≡ some p
    → cell x.session_id sub.id SubsystemLevel.threats w.db ≡ some t
    → cell x.session_id sub.id SubsystemLevel.scenarios w.db ≡ some s
    → is_claimable sv.settings epoch task p ≡ false
    → is_claimable sv.settings epoch task t ≡ false
    → is_claimable sv.settings epoch task s ≡ false
    → (write_profile sv x sub task epoch w ≡ (returns none, w))
      × (find_threats sv x sub profile task epoch [] [] w ≡ (returns [], w))
      × (write_scenarios sv x sub threats task epoch target w ≡ (returns 0, w))
unfolding write_profile find_threats write_scenarios
stages_resumed sv x sub profile threats task epoch target w p t s u ep et es np nt ns = (
  ap (carry_on (λ won. if won then profile_work sv x sub epoch else pure none))
      (claim_lost sv x sub.id SubsystemLevel.profile epoch task w p u ep np),
  ap (carry_on (λ won. if won then threats_work sv x sub profile epoch [] [] else pure []))
      (claim_lost sv x sub.id SubsystemLevel.threats epoch task w t u et nt),
  ap (carry_on (λ won. if won then scenarios_work sv x sub threats epoch target else pure 0))
      (claim_lost sv x sub.id SubsystemLevel.scenarios epoch task w s u es ns),
)
