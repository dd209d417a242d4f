-- ===== src/Pipeline/Cascade/Redelivery.antt =====
-- `run_regeneration` of app/pipeline/cascade.py for a `threat` request that is delivered again after
-- its worker died while the scenario stage waited for the language model.
use tsg.Base.{ℕ, ◌≡◌, String, Option, none, some, List, [], ◌∷◌, nat_eq}
use tsg.Enums.{RegenGranularity}
use tsg.Models.{Db, SessionRow, Subsystem}
use tsg.Dal.Outputs.{active_scoped_threat_id}
use tsg.World.{World}
use tsg.Pipeline.Run.{Services}
use tsg.Pipeline.Yields.{Yields}
use tsg.Pipeline.Cascade.{conflict, get_threat_id_to_redo, find_threat_to_resume_after_crash}
use tsg.Pipeline.Cascade.Regenerate.{Request}

-- A request for one threat.
abbrev pub for_threat : Subsystem → ℕ → ℕ → Option String → Request
for_threat sub t epoch note = record {
  subsystem_id = sub.id;
  granularity = RegenGranularity.threat;
  target_ids = some (t ∷ []);
  epoch = epoch;
  user_note = note;
}

module _ (sv : Services) (new_threat_id : ℕ → ℕ → ℕ → ℕ → ℕ) (x : SessionRow) (sub : Subsystem)
    (t i epoch task : ℕ) (other : ¬ (new_threat_id x.session_id sub.id t epoch ≡ t)) where
  -- The target is superseded, its replacement is current, and the old scoped threat is not.
  abbrev Replaced : Db → Type 0
  Replaced db =
      (get_threat_id_to_redo x.session_id sub.id RegenGranularity.threat (some (t ∷ [])) db
        ≡ conflict)
      × (find_threat_to_resume_after_crash sv new_threat_id x.session_id sub.id
            RegenGranularity.threat (some (t ∷ [])) epoch db
          ≡ i ∷ [])
      × (active_scoped_threat_id x.session_id sub.id t db.scoped ≡ none)

  -- The ids that a step answers are the replacement alone only if the target is replaced.
  abbrev Answers : List ℕ → World → Type 0
  Answers ids w = ids ≡ i ∷ [] → Replaced w.db
