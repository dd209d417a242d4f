-- ===== src/Dal/Contract/Scenarios.antt =====
-- `accepted_scenarios` of app/db/dal.py: the accepted scenarios of a session, joined to their threats.
use tsg.Base.{
  ℕ, ◌≡◌, refl, String, Bool, true, false, not, ◌&&◌, ◌||◌, Option, List, [], ◌∷◌, ◌++◌, ltb, leb,
  ◌==◌, if◌then◌else◌, nat_eq, All, All-mono, any, select_where,
}
use tsg.Base.Sort.{sort_by, All-sort_by, select_where_described}
use tsg.Json.{Json}
use tsg.Models.{Db, ThreatRow, ScopedRow, OutputRow}

pub record AcceptedScenario : Type 0 where
  pub output_id : ℕ
  pub subsystem_id : ℕ
  pub scoped_threat_id : ℕ
  pub scenario : Json
  pub threat_type_id : Option ℕ
  pub threat_catalogue_id : Option ℕ
  pub threat_type : String
  pub threat_name : Option String
  pub library_threat_type : Option String
  pub library_threat_name : Option String

abbrev pub contract_row : OutputRow → ThreatRow → AcceptedScenario
contract_row o t = record {
  output_id = o.output_id;
  subsystem_id = o.subsystem_id;
  scoped_threat_id = o.scoped_threat_id;
  scenario = o.scenario;
  threat_type_id = t.threat_type_id;
  threat_catalogue_id = t.threat_catalogue_id;
  threat_type = t.threat_type;
  threat_name = t.threat_name;
  library_threat_type = t.library_threat_type;
  library_threat_name = t.library_threat_name;
}

abbrev pub is_accepted_of : ℕ → OutputRow → Bool
is_accepted_of sid o = o.session_id == sid && o.accepted && not o.superseded

unfoldable pub join_threats : OutputRow → ScopedRow → List ThreatRow → List AcceptedScenario
join_threats o st [] = []
join_threats o st (t ∷ ts) =
    let rest = join_threats o st ts in
    if st.threat_id == t.threat_id then contract_row o t ∷ rest else rest

unfoldable pub join_scoped : OutputRow → List ScopedRow → List ThreatRow → List AcceptedScenario
unfolding join_threats
join_scoped o [] ts = []
join_scoped o (st ∷ sts) ts =
    let rest = join_scoped o sts ts in
    if o.scoped_threat_id == st.scoped_threat_id then join_threats o st ts ++ rest else rest

unfoldable pub join_outputs :
    List OutputRow → List ScopedRow → List ThreatRow → List AcceptedScenario
unfolding join_scoped
join_outputs [] sts ts = []
join_outputs (o ∷ os) sts ts = join_scoped o sts ts ++ join_outputs os sts ts

-- `ORDER BY SubsystemID, OutputID`
abbrev pub in_order : AcceptedScenario → AcceptedScenario → Bool
in_order x y =
    ltb x.subsystem_id y.subsystem_id
    || (x.subsystem_id == y.subsystem_id && leb x.output_id y.output_id)

unfoldable pub accepted_scenarios : ℕ → Db → List AcceptedScenario
unfolding join_outputs
accepted_scenarios sid db =
    sort_by in_order
      (join_outputs (select_where (is_accepted_of sid) db.outputs) db.scoped db.threats)

-- The row is of a current output of the session that the reviewer accepted.
abbrev pub IsReviewed : ℕ → List OutputRow → AcceptedScenario → Type 0
IsReviewed sid outputs x =
    any (λ o. o.output_id == x.output_id && (o.session_id == sid && o.accepted && not o.superseded))
      outputs
    ≡ true

All-append {ℓ} :
    {A : Type ℓ} (P : A → Type 0) (xs ys : List A) → All P xs → All P ys → All P (xs ++ ys)
All-append P [] ys h k = k
All-append P (x ∷ xs) ys h k = (h.0, All-append P xs ys h.1 k)

module _ (P : AcceptedScenario → Type 0) (ts : List ThreatRow) where
  All-if :
      (b : Bool) (xs ys : List AcceptedScenario)
      → All P xs
      → All P ys
      → All P (if b then xs else ys)
  All-if true xs ys h k = h
  All-if false xs ys h k = k

  join_threats-All :
      (o : OutputRow) (st : ScopedRow)
      → ((t : ThreatRow) → P (contract_row o t))
      → (us : List ThreatRow) → All P (join_threats o st us)
  unfolding join_threats
  join_threats-All o st h [] = tt
  join_threats-All o st h (t ∷ us) =
      let rest = join_threats-All o st h us in
      All-if (st.threat_id == t.threat_id) (contract_row o t ∷ join_threats o st us)
        (join_threats o st us) (h t, rest) rest

  join_scoped-All :
      (o : OutputRow)
      → ((t : ThreatRow) → P (contract_row o t))
      → (sts : List ScopedRow) → All P (join_scoped o sts ts)
  unfolding join_scoped
  join_scoped-All o h [] = tt
  join_scoped-All o h (st ∷ sts) =
      let rest = join_scoped-All o h sts in
      All-if (o.scoped_threat_id == st.scoped_threat_id)
        (join_threats o st ts ++ join_scoped o sts ts) (join_scoped o sts ts)
        (All-append P (join_threats o st ts) (join_scoped o sts ts) (join_threats-All o st h ts)
          rest)
        rest

  join_outputs-All :
      (sts : List ScopedRow) (os : List OutputRow)
      → All (λ o. (t : ThreatRow) → P (contract_row o t)) os
      → All P (join_outputs os sts ts)
  unfolding join_outputs
  join_outputs-All sts [] h = tt
  join_outputs-All sts (o ∷ os) h =
      All-append P (join_scoped o sts ts) (join_outputs os sts ts) (join_scoped-All o h.0 sts)
        (join_outputs-All sts os h.1)

-- Every row that the consumer reads is of an output of the session that was accepted and is current.
pub accepted_scenarios-All :
    (sid : ℕ) (db : Db) → All (IsReviewed sid db.outputs) (accepted_scenarios sid db)
unfolding accepted_scenarios
accepted_scenarios-All sid db = All-sort_by (IsReviewed sid db.outputs) in_order _ (
    join_outputs-All (IsReviewed sid db.outputs) db.threats db.scoped
      (select_where (is_accepted_of sid) db.outputs)
      (All-mono _ _ (λ o h t. h) (select_where (is_accepted_of sid) db.outputs)
        (select_where_described (λ o. o.output_id) (is_accepted_of sid) (is_accepted_of sid)
          (λ o. refl) db.outputs)))
