-- ===== src/Tests/Api.antt =====
-- Calls of the routes.
use tsg.Base.{ℕ, ◌≡◌, refl, Option, none, some, List, [], ◌∷◌, arith, nat_eq, string_eq, String}
use tsg.Enums.{StageStatus, RegenGranularity, SessionStatus, SubsystemProgress}
use tsg.Models.{Db}
use tsg.World.{World}
use tsg.Python.{Builtins}
use tsg.Dal.Settings.{Settings}
use tsg.Dal.Sessions.{Result, ok, load_session}
use tsg.Dal.Stages.{next_epoch}
use tsg.Pipeline.Accept.{accepted, accept_session}
use tsg.Pipeline.Cascade.{get_threat_id_to_redo, lookup_targets, threats_of_outputs}
use tsg.Api.{Principal, answers, get_authorized_session, with_session}
use tsg.Api.Board.{get_overall_status}
use tsg.Api.Routes.{get_board, get_results, post_accept, post_cancel}
use tsg.Api.Regenerate.{Job, check_regenerate, do_regenerate}
use tsg.Api.Guards.{do_regenerate_excludes}
use tsg.Api.Scope.{Denied, IsOutside, routes-Denied}
use tsg.Tests.Accept.{ready}

abbrev reviewer : Principal
reviewer = record { user_id = some 5; entities = 10 ∷ [] }

abbrev stranger : Principal
stranger = record { user_id = some 6; entities = 11 ∷ [] }

abbrev asked : Db → Result (Option (List ℕ))
asked db = ok (some (902 ∷ []))

abbrev first_job : Job
first_job = record {
  session_id = 1;
  subsystem_id = 7;
  granularity = RegenGranularity.scenario;
  target_ids = some (902 ∷ []);
  epoch = 1;
  user_note = none;
}

let_in :
    (do_regenerate 1 7 RegenGranularity.scenario asked none reviewer ready).0 ≡ answers first_job
unfolding do_regenerate with_session get_authorized_session load_session check_regenerate
    get_threat_id_to_redo lookup_targets threats_of_outputs next_epoch
let_in = refl

-- The worker has begun, and time has passed.
abbrev begun : World
begun =
    let w' = (do_regenerate 1 7 RegenGranularity.scenario asked none reviewer ready).1 in
    record w' { now = 900; db = record w'.db { stages = []; outputs = [] } }

do_regenerate_excludes_example :
    let w' = (do_regenerate 1 7 RegenGranularity.scenario asked none reviewer ready).1 in
    (w'.saved ≡ w'.db)
    × ((s : Settings) (py : Builtins) (uuid4 identity : ℕ → ℕ) (entity : ℕ) (user : Option ℕ)
          (subset : Option (List ℕ))
        → ¬ ((accept_session s py uuid4 identity 1 entity user subset begun).0 ≡ accepted))
    × ((ss' : ℕ) (granularity' : RegenGranularity) (resolve' : Db → Result (Option (List ℕ)))
          (note' : Option String) (p' : Principal) (job' : Job)
        → ¬ ((do_regenerate 1 ss' granularity' resolve' note' p' begun).0 ≡ answers job'))
do_regenerate_excludes_example =
    do_regenerate_excludes 1 7 RegenGranularity.scenario asked none reviewer ready begun first_job
      (omega arith) let_in refl

is_outside : IsOutside 1 stranger ready.db
unfolding load_session
is_outside x e = ground (arith, e)

routes-Denied_example :
    Denied (get_board 1 stranger ready) ready
    × Denied (get_results 1 stranger ready) ready
    × ((s : Settings) (py : Builtins) (uuid4 identity : ℕ → ℕ) (subset : Option (List ℕ))
        → Denied (post_accept s py uuid4 identity 1 subset stranger ready) ready
          × Denied (post_cancel s py uuid4 identity 1 stranger ready) ready)
    × ((ss : ℕ) (granularity : RegenGranularity) (resolve : Db → Result (Option (List ℕ)))
          (note : Option String)
        → Denied (do_regenerate 1 ss granularity resolve note stranger ready) ready)
routes-Denied_example = routes-Denied 1 stranger ready is_outside

waits_for_review :
    get_overall_status StageStatus.complete StageStatus.complete StageStatus.awaiting_decision
      SessionStatus.active
    ≡ SubsystemProgress.awaiting_review
unfolding get_overall_status
waits_for_review = refl
