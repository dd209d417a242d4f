-- ===== src/Pipeline/Promotion/Scope.antt =====
-- What `_promote_flagged_threats` of app/pipeline/accept.py leaves as it was.
use tsg.Base.{
  ℕ, ◌≡◌, refl, Bool, not, contains, ◌&&◌, Option, List, [], ◌∷◌, arith, All-of_forall, ◌==◌,
  nat_eq, any, find_where,
}
use tsg.Enums.{GroundingStatus, grounding_eq}
use tsg.Models.{Db, SessionRow, ThreatRow, ScopedRow, OutputRow}
use tsg.Python.{Builtins}
use tsg.World.{World}
use tsg.Pipeline.Promotion.{promote_flagged_threats}
use tsg.Pipeline.Promotion.Kept.{SameOutside, promote_flagged_threats_keeps}
use tsg.Pipeline.Promotion.Frame.{SameBut, SameBut-Grows}

module _ (i : ℕ) (old : Db) where
  abbrev pub Unmoved : List ThreatRow → Type 0
  Unmoved ts =
      find_where (λ t. t.threat_id == i) ts ≡ find_where (λ t. t.threat_id == i) old.threats

abbrev pub is_accepted_output : ℕ → ScopedRow → OutputRow → Bool
is_accepted_output sid st o =
    o.accepted
    && not o.superseded
    && o.session_id == sid
    && o.scoped_threat_id == st.scoped_threat_id

abbrev pub has_accepted_output : ℕ → Db → ThreatRow → ScopedRow → Bool
has_accepted_output sid db t st =
    any (is_accepted_output sid st) db.outputs
    && not st.superseded
    && st.session_id == sid
    && st.threat_id == t.threat_id

-- Flagged, current, of a reviewed subsystem, and with a current scenario that was accepted.
abbrev pub is_accepted_proposal : ℕ → List ℕ → Db → ThreatRow → Bool
is_accepted_proposal sid good_subs db t =
    t.session_id == sid
    && t.grounding_status == GroundingStatus.flagged
    && not t.superseded
    && contains good_subs t.subsystem_id
    && any (has_accepted_output sid db t) db.scoped

pub any_same {ℓ} :
    {A : Type ℓ} (p q : A → Bool) → ((x : A) → p x ≡ q x) → (xs : List A) → any p xs ≡ any q xs
any_same p q h [] = refl
any_same p q h (x ∷ xs) = ground (arith, h x, any_same p q h xs)

module _ (py : Builtins) (uuid4 identity : ℕ → ℕ) (x : SessionRow) (good_subs : List ℕ)
    (user : Option ℕ) (w : World) where
  abbrev after : Db
  after = (promote_flagged_threats py uuid4 identity x good_subs user w).db

  pub promote_flagged_threats_frame :
      SameBut (λ _. Unit {0}) w.db after
      × SameOutside w (promote_flagged_threats py uuid4 identity x good_subs user w)
  promote_flagged_threats_frame =
      promote_flagged_threats_keeps
        (SameBut-Grows (λ _. Unit {0}) w.db (λ threat type_id catalogue_id db q g. tt)) py uuid4
        identity x good_subs user w (All-of_forall (λ _. Unit {0}) (λ t. tt) _)
        (record {
          same_sessions = refl;
          same_stages = refl;
          same_profiles = refl;
          same_scoped = refl;
          same_outputs = refl;
          same_threats = refl;
          same_threat = tt;
        })
