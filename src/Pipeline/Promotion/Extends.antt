-- ===== src/Pipeline/Promotion/Extends.antt =====
-- `_promote_flagged_threats` of app/pipeline/accept.py only adds rows to the threat library.
use tsg.Base.{
  ℕ, ◌≡◌, String, Option, List, ◌∷◌, ◌++◌, ap, nat_eq, any, find_where, Option-cases, Bool-cases,
  inl, inr,
}
use tsg.Enums.{grounding_eq}
use tsg.Models.{Db}
use tsg.Dal.Masters.{
  is_type, is_entry, is_actor, is_link, new_type, new_entry, new_actor, upsert_threat_type,
  upsert_threat_catalogue, upsert_threat_actor, link_type_actor,
}
use tsg.Pipeline.Promotion.Kept.{Grows}

-- Rows are only added in front.
abbrev pub Extends {ℓ} : {A : Type ℓ} → List A → List A → Type ℓ
Extends {A} old new = (added : List A) × (new ≡ added ++ old)

pub record LibraryExtends (old db : Db) : Type 0 where
  pub more_types : Extends old.threat_types db.threat_types
  pub more_entries : Extends old.threat_catalogue db.threat_catalogue
  pub more_actors : Extends old.threat_actors db.threat_actors
  pub more_links : Extends old.type_actors db.type_actors

module _ (old : Db) where
  upsert_threat_type-LibraryExtends :
      (name : String) (category sector : Option ℕ) (id : ℕ) (db : Db)
      → LibraryExtends old db
      → LibraryExtends old (upsert_threat_type name category sector id db).1
  unfolding upsert_threat_type
  upsert_threat_type-LibraryExtends name category sector id db g =
      elim (Option-cases (find_where (is_type name category sector) db.threat_types)) [
        | inr (r, e) ↦ rw (upsert_threat_type, e) g
        | inl e ↦
            rw (upsert_threat_type, e)
              (record {
                more_types = (
                  new_type id name category sector ∷ g.more_types.0,
                  ap (◌∷◌ (new_type id name category sector)) g.more_types.1,
                );
                more_entries = g.more_entries;
                more_actors = g.more_actors;
                more_links = g.more_links;
              })
      ]

  upsert_threat_catalogue-LibraryExtends :
      (name : String) (type_id : ℕ) (sector : Option ℕ) (id : ℕ) (db : Db)
      → LibraryExtends old db
      → LibraryExtends old (upsert_threat_catalogue name type_id sector id db).1
  unfolding upsert_threat_catalogue
  upsert_threat_catalogue-LibraryExtends name type_id sector id db g =
      elim (Option-cases (find_where (is_entry name type_id sector) db.threat_catalogue)) [
        | inr (r, e) ↦ rw (upsert_threat_catalogue, e) g
        | inl e ↦
            rw (upsert_threat_catalogue, e)
              (record {
                more_types = g.more_types;
                more_entries = (
                  new_entry id name type_id sector ∷ g.more_entries.0,
                  ap (◌∷◌ (new_entry id name type_id sector)) g.more_entries.1,
                );
                more_actors = g.more_actors;
                more_links = g.more_links;
              })
      ]

  upsert_threat_actor-LibraryExtends :
      (name : String) (id : ℕ) (db : Db)
      → LibraryExtends old db
      → LibraryExtends old (upsert_threat_actor name id db).1
  unfolding upsert_threat_actor
  upsert_threat_actor-LibraryExtends name id db g =
      elim (Option-cases (find_where (is_actor name) db.threat_actors)) [
        | inr (r, e) ↦ rw (upsert_threat_actor, e) g
        | inl e ↦
            rw (upsert_threat_actor, e)
              (record {
                more_types = g.more_types;
                more_entries = g.more_entries;
                more_actors = (
                  new_actor id name ∷ g.more_actors.0,
                  ap (◌∷◌ (new_actor id name)) g.more_actors.1,
                );
                more_links = g.more_links;
              })
      ]

  link_type_actor-LibraryExtends :
      (type_id actor_id : ℕ) (db : Db)
      → LibraryExtends old db
      → LibraryExtends old (link_type_actor type_id actor_id db).1
  unfolding link_type_actor
  link_type_actor-LibraryExtends type_id actor_id db g =
      elim (Bool-cases (any (is_link type_id actor_id) db.type_actors)) [
        | inl e ↦ rw (link_type_actor, e) g
        | inr e ↦
            rw (link_type_actor, e)
              (record {
                more_types = g.more_types;
                more_entries = g.more_entries;
                more_actors = g.more_actors;
                more_links = (
                  record { threat_type_id = type_id; threat_actor_id = actor_id } ∷ g.more_links.0,
                  ap (◌∷◌ (record { threat_type_id = type_id; threat_actor_id = actor_id }))
                      g.more_links.1,
                );
              })
      ]

  pub LibraryExtends-Grows : Grows (LibraryExtends old) (λ _. Unit {0})
  LibraryExtends-Grows = record {
    type_step = upsert_threat_type-LibraryExtends;
    entry_step = upsert_threat_catalogue-LibraryExtends;
    actor_step = upsert_threat_actor-LibraryExtends;
    link_step = link_type_actor-LibraryExtends;
    point_step = λ threat type_id catalogue_id db q g. record {
      more_types = g.more_types;
      more_entries = g.more_entries;
      more_actors = g.more_actors;
      more_links = g.more_links;
    };
    candidate_step = λ row db g. record {
      more_types = g.more_types;
      more_entries = g.more_entries;
      more_actors = g.more_actors;
      more_links = g.more_links;
    };
    audit_step = λ row db g. record {
      more_types = g.more_types;
      more_entries = g.more_entries;
      more_actors = g.more_actors;
      more_links = g.more_links;
    };
  }
