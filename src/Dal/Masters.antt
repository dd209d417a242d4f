-- ===== src/Dal/Masters.antt =====
-- app/db/dal.py: the growth of the threat library. An insert that violates the natural-key index of
-- its table (migrations/versions/0010) is answered with the row that has the key; the indexes count
-- live rows only, and two NULLs as equal. That violation is the only one in the model, so the branch
-- that finds no winner and raises again is not reached.

use tsg.Base.{
  ℕ, String, Bool, true, false, not, ◌&&◌, Option, none, some, ◌∷◌, ◌==◌, if◌then◌else◌, nat_eq,
  string_eq, any, find_where,
}
use tsg.Models.{Db, ThreatTypeRow, ThreatCatalogueRow, ThreatActorRow, TypeActorRow}

abbrev pub same_id : Option ℕ → Option ℕ → Bool
same_id none none = true
same_id (some a) (some b) = a == b
same_id none (some b) = false
same_id (some a) none = false

-- `UX_ThreatType_NaturalKey`
abbrev pub is_type : String → Option ℕ → Option ℕ → ThreatTypeRow → Bool
is_type name category sector r =
    r.threat_type_name == name
    && same_id r.primary_threat_category_id category
    && same_id r.sector_id sector
    && r.is_active
    && not r.is_deleted

-- `UX_ThreatCatalogue_NaturalKey`
abbrev pub is_entry : String → ℕ → Option ℕ → ThreatCatalogueRow → Bool
is_entry name type_id sector r =
    r.threat_type_id == type_id
    && r.threat_name == name
    && same_id r.sector_id sector
    && r.is_active
    && not r.is_deleted

-- `UX_ThreatActor_NaturalKey`
abbrev pub is_actor : String → ThreatActorRow → Bool
is_actor name r = r.threat_actor_name == name && r.is_active && not r.is_deleted

-- The primary key of `ThreatType_ThreatActor_Map`.
abbrev pub is_link : ℕ → ℕ → TypeActorRow → Bool
is_link type_id actor_id r = r.threat_type_id == type_id && r.threat_actor_id == actor_id

abbrev pub new_type : ℕ → String → Option ℕ → Option ℕ → ThreatTypeRow
new_type id name category sector = record {
  threat_type_id = id;
  threat_type_name = name;
  sector_id = sector;
  primary_threat_category_id = category;
  is_active = true;
  is_deleted = false;
}

abbrev pub new_entry : ℕ → String → ℕ → Option ℕ → ThreatCatalogueRow
new_entry id name type_id sector = record {
  threat_catalogue_id = id;
  threat_type_id = type_id;
  threat_name = name;
  sector_id = sector;
  is_active = true;
  is_deleted = false;
}

abbrev pub new_actor : ℕ → String → ThreatActorRow
new_actor id name = record {
  threat_actor_id = id;
  threat_actor_name = name;
  is_active = true;
  is_deleted = false;
}

-- `id` is the IDENTITY value that the database gives the new row.
unfoldable pub upsert_threat_type : String → Option ℕ → Option ℕ → ℕ → Db → ℕ × Db
upsert_threat_type name category sector id db =
    elim (find_where (is_type name category sector) db.threat_types) [
      | some winner ↦ (winner.threat_type_id, db)
      | none ↦ (id, record db { threat_types = new_type id name category sector ∷ db.threat_types })
    ]

unfoldable pub upsert_threat_catalogue : String → ℕ → Option ℕ → ℕ → Db → ℕ × Db
upsert_threat_catalogue name type_id sector id db =
    elim (find_where (is_entry name type_id sector) db.threat_catalogue) [
      | some winner ↦ (winner.threat_catalogue_id, db)
      | none ↦ (
        id,
        record db { threat_catalogue = new_entry id name type_id sector ∷ db.threat_catalogue },
      )
    ]

unfoldable pub upsert_threat_actor : String → ℕ → Db → ℕ × Db
upsert_threat_actor name id db = elim (find_where (is_actor name) db.threat_actors) [
  | some winner ↦ (winner.threat_actor_id, db)
  | none ↦ (id, record db { threat_actors = new_actor id name ∷ db.threat_actors })
]

-- `link_type_actor`: whether the link is new.
unfoldable pub link_type_actor : ℕ → ℕ → Db → Bool × Db
link_type_actor type_id actor_id db =
    if any (is_link type_id actor_id) db.type_actors then (false, db) else (
      true,
      record db {
        type_actors =
            record { threat_type_id = type_id; threat_actor_id = actor_id } ∷ db.type_actors;
      },
    )
