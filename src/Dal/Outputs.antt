-- ===== src/Dal/Outputs.antt =====
-- app/db/dal.py: the pipeline's outputs. Rows are never deleted: a newer generation supersedes them,
-- and only rows with `Superseded = 0` count. A new row goes in front, since a table has no order.
use tsg.Base.{
  ℕ, ◌≡◌, refl, String, Bool, true, false, not, ◌&&◌, Option, none, some, List, [], ◌∷◌, map, ◌==◌,
  nat_eq, contains, select_where, find_where, count_where, update_where,
}
use tsg.Enums.{GroundingStatus}
use tsg.Json.{Json}
use tsg.Models.{Db, ProfileRow, ThreatRow, ScopedRow, OutputRow, ThreatTypeRow, AuditRow}

-- What the four output tables have in common: whose row it is, and the `Superseded` flag.
pub record Generation (A : Type 0) : Type 0 where
  pub session_of : A → ℕ
  pub subsystem_of : A → ℕ
  pub is_superseded : A → Bool
  pub retire : A → A
  pub retire_superseded : (a : A) → is_superseded (retire a) ≡ true
  pub retire_session : (a : A) → session_of (retire a) ≡ session_of a
  pub retire_subsystem : (a : A) → subsystem_of (retire a) ≡ subsystem_of a

-- A table of which each row belongs to a threat.
pub record PerThreat (A : Type 0) : Type 0 where
  pub threat_of : A → ℕ

instance abbrev pub profile_generation : Generation ProfileRow
profile_generation = record {
  session_of = λ r. r.session_id;
  subsystem_of = λ r. r.subsystem_id;
  is_superseded = λ r. r.superseded;
  retire = λ r. record r { superseded = true };
  retire_superseded = λ r. refl;
  retire_session = λ r. refl;
  retire_subsystem = λ r. refl;
}

instance abbrev pub threat_generation : Generation ThreatRow
threat_generation = record {
  session_of = λ r. r.session_id;
  subsystem_of = λ r. r.subsystem_id;
  is_superseded = λ r. r.superseded;
  retire = λ r. record r { superseded = true };
  retire_superseded = λ r. refl;
  retire_session = λ r. refl;
  retire_subsystem = λ r. refl;
}

instance abbrev pub scoped_generation : Generation ScopedRow
scoped_generation = record {
  session_of = λ r. r.session_id;
  subsystem_of = λ r. r.subsystem_id;
  is_superseded = λ r. r.superseded;
  retire = λ r. record r { superseded = true };
  retire_superseded = λ r. refl;
  retire_session = λ r. refl;
  retire_subsystem = λ r. refl;
}

instance abbrev pub output_generation : Generation OutputRow
output_generation = record {
  session_of = λ r. r.session_id;
  subsystem_of = λ r. r.subsystem_id;
  is_superseded = λ r. r.superseded;
  retire = λ r. record r { superseded = true };
  retire_superseded = λ r. refl;
  retire_session = λ r. refl;
  retire_subsystem = λ r. refl;
}

instance abbrev pub threat_per_threat : PerThreat ThreatRow
threat_per_threat = record { threat_of = λ r. r.threat_id }

instance abbrev pub scoped_per_threat : PerThreat ScopedRow
scoped_per_threat = record { threat_of = λ r. r.threat_id }

module _ {A : Type 0} ⦃g : Generation A⦄ where
  open g use {session_of, subsystem_of, is_superseded, retire}

  -- The active rows of a (session, subsystem).
  abbrev pub is_current : ℕ → ℕ → A → Bool
  is_current sid ss r = session_of r == sid && subsystem_of r == ss && not (is_superseded r)

  unfoldable pub supersede : ℕ → ℕ → List A → List A
  supersede sid ss = update_where (is_current sid ss) retire

  module _ ⦃t : PerThreat A⦄ where
    unfoldable pub supersede_by_threat : ℕ → ℕ → ℕ → List A → List A
    supersede_by_threat sid ss threat =
        update_where (λ r. is_current sid ss r && t.threat_of r == threat) retire

    unfoldable pub supersede_by_threats : ℕ → ℕ → List ℕ → List A → List A
    supersede_by_threats sid ss [] rows = rows
    supersede_by_threats sid ss (x ∷ xs) rows =
        update_where (λ r. is_current sid ss r && contains (x ∷ xs) (t.threat_of r)) retire rows

-- `ThreatTypeID IN (...)`, which no NULL satisfies.
abbrev pub id_in : List ℕ → Option ℕ → Bool
id_in ids none = false
id_in ids (some i) = contains ids i

unfoldable pub supersede_by_types : ℕ → ℕ → List ℕ → List ThreatRow → List ThreatRow
supersede_by_types sid ss type_ids =
    update_where (λ r. is_current sid ss r && id_in type_ids r.threat_type_id)
      threat_generation.retire

-- The types whose primary category is one of these.
abbrev pub types_of_categories : List ℕ → List ThreatTypeRow → List ℕ
types_of_categories category_ids types =
    map (λ t. t.threat_type_id)
      (select_where (λ t. id_in category_ids t.primary_threat_category_id) types)

unfoldable pub supersede_by_categories :
    ℕ → ℕ → List ℕ → List ThreatTypeRow → List ThreatRow → List ThreatRow
supersede_by_categories sid ss category_ids types =
    update_where
      (λ r. is_current sid ss r && id_in (types_of_categories category_ids types) r.threat_type_id)
      threat_generation.retire

unfoldable pub active_scoped_threat_ids : ℕ → ℕ → List ℕ → List ScopedRow → List ℕ
active_scoped_threat_ids sid ss [] rows = []
active_scoped_threat_ids sid ss (x ∷ xs) rows =
    map (λ r. r.scoped_threat_id)
      (select_where (λ r. is_current sid ss r && contains (x ∷ xs) r.threat_id) rows)

unfoldable pub supersede_by_scoped_threats : ℕ → ℕ → List ℕ → List OutputRow → List OutputRow
supersede_by_scoped_threats sid ss [] rows = rows
supersede_by_scoped_threats sid ss (x ∷ xs) rows =
    update_where (λ r. is_current sid ss r && contains (x ∷ xs) r.scoped_threat_id)
      output_generation.retire rows

unfoldable pub active_scoped_threat_id : ℕ → ℕ → ℕ → List ScopedRow → Option ℕ
active_scoped_threat_id sid ss threat rows =
    elim (find_where (λ r. is_current sid ss r && r.threat_id == threat) rows) [
      | none ↦ none
      | some r ↦ some r.scoped_threat_id
    ]

unfoldable pub supersede_by_scoped_threat : ℕ → ℕ → ℕ → List OutputRow → List OutputRow
supersede_by_scoped_threat sid ss scoped_id =
    update_where (λ r. is_current sid ss r && r.scoped_threat_id == scoped_id)
      output_generation.retire

-- A threat in the shape that `scoping.score_threats` and the scenario prompts read.
pub record Threat : Type 0 where
  pub threat_id : ℕ
  pub grounding_status : GroundingStatus
  pub threat_type : String
  pub threat_name : Option String
  pub library_threat_type : Option String
  pub library_threat_name : Option String
  pub threat_type_id : Option ℕ

abbrev pub threat_of_row : ThreatRow → Threat
threat_of_row r = record {
  threat_id = r.threat_id;
  grounding_status = r.grounding_status;
  threat_type = r.threat_type;
  threat_name = r.threat_name;
  library_threat_type = r.library_threat_type;
  library_threat_name = r.library_threat_name;
  threat_type_id = r.threat_type_id;
}

unfoldable pub active_threats : ℕ → ℕ → Db → List Threat
active_threats sid ss db = map threat_of_row (select_where (is_current sid ss) db.threats)

abbrev is_ungrounded : ThreatRow → Bool
is_ungrounded r = elim r.threat_type_id [ none ↦ true | some _ ↦ false ]

unfoldable pub count_active_flagged_threats : ℕ → ℕ → Db → ℕ
count_active_flagged_threats sid ss db =
    count_where (λ r. is_current sid ss r && is_ungrounded r) db.threats

unfoldable pub get_active_profile : ℕ → ℕ → Db → Option Json
get_active_profile sid ss db = elim (find_where (is_current sid ss) db.profiles) [
  | none ↦ none
  | some r ↦ some r.profile
]

unfoldable pub mark_profiles_accepted : ℕ → List ℕ → Db → Db
mark_profiles_accepted sid subs db = record db {
  profiles =
      update_where (λ r. r.session_id == sid && not r.superseded && contains subs r.subsystem_id)
        (λ r. record r { accepted = true }) db.profiles;
}

abbrev pub in_subset : Option (List ℕ) → ℕ → Bool
in_subset none i = true
in_subset (some ids) i = contains ids i

unfoldable pub mark_scenarios_accepted : ℕ → List ℕ → Option (List ℕ) → Db → Db
mark_scenarios_accepted sid subs subset db = record db {
  outputs =
      update_where
        (λ r.
          r.session_id == sid
          && not r.superseded
          && contains subs r.subsystem_id
          && in_subset subset r.output_id)
        (λ r. record r { accepted = true }) db.outputs;
}

-- `append_audit`: the trail only grows.
abbrev pub append_audit : AuditRow → Db → Db
append_audit row db = record db { audit = row ∷ db.audit }
