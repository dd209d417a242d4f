-- ===== src/Pipeline/Promotion/Frame.antt =====
-- `_promote_flagged_threats` of app/pipeline/accept.py writes the threat library, and of the
-- threats their library ids only.
use tsg.Base.{
  ℕ, ◌≡◌, refl, String, Bool, Option, none, List, [], ◌∷◌, ◌∙◌, map, ◌==◌, nat_eq, any, find_where,
  update_where, Option-cases, Bool-cases, inl, inr,
}
use tsg.Enums.{grounding_eq}
use tsg.Models.{Db, ThreatRow}
use tsg.Dal.Masters.{
  is_type, is_entry, is_actor, is_link, upsert_threat_type, upsert_threat_catalogue,
  upsert_threat_actor, link_type_actor,
}
use tsg.Pipeline.Promotion.{point_to}
use tsg.Pipeline.Promotion.Kept.{Grows}

-- A threat without its two library ids.
abbrev pub unlinked : ThreatRow → ThreatRow
unlinked t = record t { threat_type_id = none; threat_catalogue_id = none }

-- The tables that are not the library's and the threats up to their library ids; `T` holds of the threats.
pub record SameBut (T : List ThreatRow → Type 0) (old db : Db) : Type 0 where
  pub same_sessions : db.sessions ≡ old.sessions
  pub same_stages : db.stages ≡ old.stages
  pub same_profiles : db.profiles ≡ old.profiles
  pub same_scoped : db.scoped ≡ old.scoped
  pub same_outputs : db.outputs ≡ old.outputs
  pub same_threats : map unlinked db.threats ≡ map unlinked old.threats
  pub same_threat : T db.threats

module _ {ℓ κ} {A : Type ℓ} {B : Type κ} (g : A → B) (p : A → Bool) (f : A → A)
    (keep : (x : A) → g (f x) ≡ g x) where
  pub map-update_where : (xs : List A) → map g (update_where p f xs) ≡ map g xs
  map-update_where [] = refl
  map-update_where (x ∷ xs) = elim (Bool-cases (p x)) [
    | inl e ↦ rw (e, keep x, map-update_where xs) refl
    | inr e ↦ rw (e, map-update_where xs) refl
  ]

module _ (T : List ThreatRow → Type 0) (old : Db) where
  upsert_threat_type-SameBut :
      (name : String) (category sector : Option ℕ) (id : ℕ) (db : Db)
      → SameBut T old db
      → SameBut T old (upsert_threat_type name category sector id db).1
  unfolding upsert_threat_type
  upsert_threat_type-SameBut name category sector id db g =
      elim (Option-cases (find_where (is_type name category sector) db.threat_types)) [
        | inr (r, e) ↦ rw (upsert_threat_type, e) g
        | inl e ↦
            rw (upsert_threat_type, e)
              (record {
                same_sessions = g.same_sessions;
                same_stages = g.same_stages;
                same_profiles = g.same_profiles;
                same_scoped = g.same_scoped;
                same_outputs = g.same_outputs;
                same_threats = g.same_threats;
                same_threat = g.same_threat;
              })
      ]

  upsert_threat_catalogue-SameBut :
      (name : String) (type_id : ℕ) (sector : Option ℕ) (id : ℕ) (db : Db)
      → SameBut T old db
      → SameBut T old (upsert_threat_catalogue name type_id sector id db).1
  unfolding upsert_threat_catalogue
  upsert_threat_catalogue-SameBut name type_id sector id db g =
      elim (Option-cases (find_where (is_entry name type_id sector) db.threat_catalogue)) [
        | inr (r, e) ↦ rw (upsert_threat_catalogue, e) g
        | inl e ↦
            rw (upsert_threat_catalogue, e)
              (record {
                same_sessions = g.same_sessions;
                same_stages = g.same_stages;
                same_profiles = g.same_profiles;
                same_scoped = g.same_scoped;
                same_outputs = g.same_outputs;
                same_threats = g.same_threats;
                same_threat = g.same_threat;
              })
      ]

  upsert_threat_actor-SameBut :
      (name : String) (id : ℕ) (db : Db)
      → SameBut T old db
      → SameBut T old (upsert_threat_actor name id db).1
  unfolding upsert_threat_actor
  upsert_threat_actor-SameBut name id db g =
      elim (Option-cases (find_where (is_actor name) db.threat_actors)) [
        | inr (r, e) ↦ rw (upsert_threat_actor, e) g
        | inl e ↦
            rw (upsert_threat_actor, e)
              (record {
                same_sessions = g.same_sessions;
                same_stages = g.same_stages;
                same_profiles = g.same_profiles;
                same_scoped = g.same_scoped;
                same_outputs = g.same_outputs;
                same_threats = g.same_threats;
                same_threat = g.same_threat;
              })
      ]

  link_type_actor-SameBut :
      (type_id actor_id : ℕ) (db : Db)
      → SameBut T old db
      → SameBut T old (link_type_actor type_id actor_id db).1
  unfolding link_type_actor
  link_type_actor-SameBut type_id actor_id db g =
      elim (Bool-cases (any (is_link type_id actor_id) db.type_actors)) [
        | inl e ↦ rw (link_type_actor, e) g
        | inr e ↦
            rw (link_type_actor, e)
              (record {
                same_sessions = g.same_sessions;
                same_stages = g.same_stages;
                same_profiles = g.same_profiles;
                same_scoped = g.same_scoped;
                same_outputs = g.same_outputs;
                same_threats = g.same_threats;
                same_threat = g.same_threat;
              })
      ]

  abbrev pub Writes : (ℕ → Type 0) → Type 0
  Writes Q =
      (threat type_id : ℕ) (catalogue_id : Option ℕ) (db : Db)
      → Q threat
      → T db.threats
      → T (point_to threat type_id catalogue_id db).threats

  point_to-SameBut :
      {Q : ℕ → Type 0}
      → Writes Q
      → (threat type_id : ℕ) (catalogue_id : Option ℕ) (db : Db) → Q threat
      → SameBut T old db
      → SameBut T old (point_to threat type_id catalogue_id db)
  point_to-SameBut writes threat type_id catalogue_id db q g = record {
    same_sessions = g.same_sessions;
    same_stages = g.same_stages;
    same_profiles = g.same_profiles;
    same_scoped = g.same_scoped;
    same_outputs = g.same_outputs;
    same_threats =
        map-update_where unlinked (λ t. t.threat_id == threat) _ (λ t. refl) db.threats
        ∙ g.same_threats;
    same_threat = writes threat type_id catalogue_id db q g.same_threat;
  }

  pub SameBut-Grows : {Q : ℕ → Type 0} → Writes Q → Grows (SameBut T old) Q
  SameBut-Grows writes = record {
    type_step = upsert_threat_type-SameBut;
    entry_step = upsert_threat_catalogue-SameBut;
    actor_step = upsert_threat_actor-SameBut;
    link_step = link_type_actor-SameBut;
    point_step = point_to-SameBut writes;
    candidate_step = λ row db g. record {
      same_sessions = g.same_sessions;
      same_stages = g.same_stages;
      same_profiles = g.same_profiles;
      same_scoped = g.same_scoped;
      same_outputs = g.same_outputs;
      same_threats = g.same_threats;
      same_threat = g.same_threat;
    };
    audit_step = λ row db g. record {
      same_sessions = g.same_sessions;
      same_stages = g.same_stages;
      same_profiles = g.same_profiles;
      same_scoped = g.same_scoped;
      same_outputs = g.same_outputs;
      same_threats = g.same_threats;
      same_threat = g.same_threat;
    };
  }
