-- ===== src/Pipeline/Grounding/Laws.antt =====
-- What a grounding verdict says: its ids are of active library rows that the sector sees, the name
-- belongs to the type, the actors are allowed, and the status is the band of the score.
use tsg.Base.{
  ℕ, ◌≡◌, refl, subst, Bool, true, false, String, Option, none, some, List, arith, All, any,
  contains, is_some_of, ◌==◌, ◌&&◌, if◌then◌else◌, nat_eq, string_eq,
}
use tsg.Base.Number.{ℤ, min_ℤ}
use tsg.Base.Sort.{All-sort_by, All-select_where, select_where_described}
use tsg.Enums.{GroundingStatus, grounding_eq}
use tsg.Json.{Fields, get}
use tsg.Python.{Builtins}
use tsg.Models.{Db, ThreatTypeRow, ThreatCatalogueRow}
use tsg.Dal.Settings.{Settings}
use tsg.Failure.{Attempt, returns, raises, ◌>>=◌}
use tsg.Pipeline.Grounding.{
  Models, GroundingResult, label_match_from_score, pick_worse_of_two, offers_type, offers_name,
  get_possible_types, get_possible_names, get_allowed_actor_names, find_category,
  find_closest_match, matched_result, match_name, after_type, find_threat_in_library, ensure_text,
  ensure_actor_list,
}
use tsg.Pipeline.Grounding.Match.{find_closest_match-All}

-- The weaker of two bands is the band of the smaller score.
pick_worse-label :
    (s : Settings) (a b : ℤ)
    → pick_worse_of_two (label_match_from_score s a) (label_match_from_score s b)
      ≡ label_match_from_score s (min_ℤ a b)
unfolding pick_worse_of_two label_match_from_score
pick_worse-label s a b = ground arith

worse_flagged :
    (a : GroundingStatus) → pick_worse_of_two a GroundingStatus.flagged ≡ GroundingStatus.flagged
unfolding pick_worse_of_two
worse_flagged a = ground arith

-- An active row `t` of the type table, of no sector or one of these, and of the category if given.
abbrev pub IsOffered : Option ℕ → List ℕ → Db → ℕ → Type 0
IsOffered category sector_ids db t =
    any
      (λ r.
        r.threat_type_id == t
        && (r.is_active
            && elim r.sector_id [ none ↦ true | some i ↦ contains sector_ids i ]
            && elim category [ none ↦ true | some c ↦ is_some_of r.primary_threat_category_id c ]))
      db.threat_types
    ≡ true

-- An active row `c` of the catalogue under the type, of no sector or one of these.
abbrev pub IsNamed : ℕ → List ℕ → Db → ℕ → Type 0
IsNamed t sector_ids db c =
    any
      (λ r.
        r.threat_catalogue_id == c
        && (r.is_active
            && r.threat_type_id == t
            && elim r.sector_id [ none ↦ true | some i ↦ contains sector_ids i ]))
      db.threat_catalogue
    ≡ true

abbrev pub NamedUnder : ℕ → List ℕ → Db → Option ℕ → Type 0
NamedUnder t sector_ids db none = Unit
NamedUnder t sector_ids db (some c) = IsNamed t sector_ids db c

abbrev pub Allowed : ℕ → Db → String → Type 0
Allowed t db a = contains (get_allowed_actor_names t db) a ≡ true

-- The ids and actors of a verdict, by the type that it names.
abbrev pub RefersTo : Option ℕ → List ℕ → Db → List String → Option ℕ → GroundingResult → Type 0
RefersTo category sector_ids db actors none g =
    (g.status ≡ GroundingStatus.flagged)
    × (g.catalogue_id ≡ none)
    × (g.actors_validated ≡ false)
    × (g.actors ≡ actors)
RefersTo category sector_ids db actors (some t) g =
    IsOffered category sector_ids db t
    × NamedUnder t sector_ids db g.catalogue_id
    × (g.actors_validated ≡ true)
    × All (Allowed t db) g.actors

-- The status of a verdict, by the catalogue row that it names.
abbrev pub BandOf : Settings → Option ℕ → GroundingResult → Type 0
BandOf s none g = g.status ≡ GroundingStatus.flagged
BandOf s (some c) g = g.status ≡ label_match_from_score s g.score

module _ (py : Builtins) (s : Settings) (m : Models) (db : Db) (sector_ids : List ℕ)
    (category : Option ℕ) (proposed : Fields) (actors_in : List String) where
  abbrev Verdict : Attempt GroundingResult → Type 0
  Verdict (raises e) = Unit
  Verdict (returns g) =
      RefersTo category sector_ids db actors_in g.type_id g × BandOf s g.catalogue_id g

  matched_verdict :
      (trow : ThreatTypeRow) (tscore : ℤ) (crow : Option ThreatCatalogueRow) (cscore : ℤ)
      → IsOffered category sector_ids db trow.threat_type_id
      → ((r : ThreatCatalogueRow)
          → crow ≡ some r
          → IsNamed trow.threat_type_id sector_ids db r.threat_catalogue_id)
      → Verdict (returns (matched_result py s m db actors_in trow tscore crow cscore))
  matched_verdict trow tscore none cscore h k = (
    (h, tt, refl, All-select_where (Allowed trow.threat_type_id db) _ actors_in (λ a e. e)),
    worse_flagged (label_match_from_score s tscore),
  )
  matched_verdict trow tscore (some r) cscore h k = (
    (h, k r refl, refl, All-select_where (Allowed trow.threat_type_id db) _ actors_in (λ a e. e)),
    pick_worse-label s tscore cscore,
  )

  names_found :
      (t : ℕ)
      → All
          (λ r. IsNamed t sector_ids db r.threat_catalogue_id)
          (get_possible_names t sector_ids db)
  unfolding get_possible_names
  names_found t =
      All-sort_by (λ r. IsNamed t sector_ids db r.threat_catalogue_id) _ _
        (select_where_described (λ r. r.threat_catalogue_id) (offers_name t sector_ids)
          (λ r.
            r.is_active
            && r.threat_type_id == t
            && elim r.sector_id [ none ↦ true | some i ↦ contains sector_ids i ])
          (λ r. ground arith) db.threat_catalogue)

  types_found :
      All
        (λ r. IsOffered category sector_ids db r.threat_type_id)
        (get_possible_types category sector_ids db)
  unfolding get_possible_types
  types_found =
      All-sort_by (λ r. IsOffered category sector_ids db r.threat_type_id) _ _
        (select_where_described (λ r. r.threat_type_id) (offers_type category sector_ids)
          (λ r.
            r.is_active
            && elim r.sector_id [ none ↦ true | some i ↦ contains sector_ids i ]
            && elim category [ none ↦ true | some c ↦ is_some_of r.primary_threat_category_id c ])
          (λ r. ground arith) db.threat_types)

  bind_verdict :
      {B : Type 0} (x : Attempt B) (f : B → Attempt GroundingResult)
      → ((b : B) → x ≡ returns b → Verdict (f b))
      → Verdict (x >>= f)
  bind_verdict (raises e) f h = tt
  bind_verdict (returns b) f h = h b refl

  match_name_verdict :
      (trow : ThreatTypeRow) (tscore : ℤ)
      → IsOffered category sector_ids db trow.threat_type_id
      → Verdict (match_name py s m db sector_ids proposed actors_in trow tscore)
  unfolding match_name
  match_name_verdict trow tscore h =
      bind_verdict
        (find_closest_match s m (ensure_text (get proposed "name") "") (λ r. r.threat_name)
          (get_possible_names trow.threat_type_id sector_ids db))
        (λ (crow, cscore). returns (matched_result py s m db actors_in trow tscore crow cscore))
        λ (crow, cscore) e. matched_verdict trow tscore crow cscore h λ r found.
          find_closest_match-All
            (λ x. IsNamed trow.threat_type_id sector_ids db x.threat_catalogue_id) s m
            (ensure_text (get proposed "name") "") (λ x. x.threat_name)
            (get_possible_names trow.threat_type_id sector_ids db) r cscore
            (names_found trow.threat_type_id) (rw found at e)

  after_type_verdict :
      (o : Option ThreatTypeRow) (tscore : ℤ)
      → ((r : ThreatTypeRow) → o ≡ some r → IsOffered category sector_ids db r.threat_type_id)
      → Verdict (after_type py s m db sector_ids proposed actors_in o tscore)
  after_type_verdict none tscore h = ((refl, refl, refl, refl), refl)
  after_type_verdict (some r) tscore h =
      pick (label_match_from_score s tscore == GroundingStatus.flagged)
    where
      pick :
          (b : Bool)
          → Verdict (
              if b
              then after_type py s m db sector_ids proposed actors_in none tscore
              else match_name py s m db sector_ids proposed actors_in r tscore)
      pick true = ((refl, refl, refl, refl), refl)
      pick false = match_name_verdict r tscore (h r refl)

-- A verdict that names a type names an active one that the sector sees, of the category of the
-- proposal where that is known; its catalogue row, if any, is active, visible and under that type,
-- its actors are allowed for the type, and they are marked validated. A verdict that names no type is
-- flagged, names no catalogue row, and keeps the proposed actors as not validated. The status is the
-- band of the score where a catalogue row is named, and flagged where none is.
pub find_threat_in_library_lem :
    (py : Builtins) (s : Settings) (m : Models) (db : Db) (sector_ids : List ℕ) (proposed : Fields)
    (g : GroundingResult)
    → find_threat_in_library py s m db sector_ids proposed ≡ returns g
    → RefersTo
        (find_category py (ensure_text (get proposed "category") "") db)
        sector_ids
        db
        (ensure_actor_list (get proposed "actors"))
        g.type_id
        g
      × BandOf s g.catalogue_id g
unfolding find_threat_in_library
find_threat_in_library_lem py s m db sector_ids proposed g e =
    let category = find_category py (ensure_text (get proposed "category") "") db in
    let actors = ensure_actor_list (get proposed "actors") in
    subst (Verdict py s m db sector_ids category proposed actors) e (
      bind_verdict py s m db sector_ids category proposed actors
        (find_closest_match s m (ensure_text (get proposed "type") "") (λ r. r.threat_type_name)
          (get_possible_types category sector_ids db))
        (λ (trow, tscore). after_type py s m db sector_ids proposed actors trow tscore)
        λ (trow, tscore) found.
          after_type_verdict py s m db sector_ids category proposed actors trow tscore λ r is_r.
            find_closest_match-All (λ x. IsOffered category sector_ids db x.threat_type_id) s m
              (ensure_text (get proposed "type") "") (λ x. x.threat_type_name)
              (get_possible_types category sector_ids db) r tscore
              (types_found py s m db sector_ids category proposed actors) (rw is_r at found))
