-- ===== src/Pipeline/Grounding.antt =====
-- app/pipeline/grounding.py: the match of a proposed threat with the threat library. The vectors and
-- the cosine of `how_similar`, which are floats, come in as one function of two texts, and the
-- rerank model as another; scores are whole numbers.
pub mod Match
pub mod Laws
use tsg.Base.{
  ℕ, String, Bool, true, false, not, ◌&&◌, ◌||◌, Option, none, some, List, [], ◌∷◌, map, leb, ◌==◌,
  if◌then◌else◌, nat_eq, string_eq, nat_beq, is_some_of, contains, length, take, select_where,
}
use tsg.Base.Number.{ℤ, pos, leb_ℤ, min_ℤ}
use tsg.Base.Sort.{sort_by, order_by}
use tsg.Enums.{GroundingStatus, grounding_eq}
use tsg.Json.{Json, Items, Fields, get}
use tsg.Python.{Builtins}
use tsg.Models.{
  Db, ThreatTypeRow, ThreatCategoryRow, ThreatCatalogueRow, ThreatActorRow, TypeActorRow,
}
use tsg.Dal.Settings.{Settings}
use tsg.Failure.{Attempt, returns, raises, failed, ◌>>=◌}

-- The two models. `similarity a b` is the cosine of the vectors of `a` and `b`; `rerank` answers
-- `none` where the client raises.
pub record Models : Type 0 where
  pub similarity : String → String → ℤ
  pub rerank : String → List String → Option (List ℤ)

unfoldable pub label_match_from_score : Settings → ℤ → GroundingStatus
label_match_from_score s score =
    if leb_ℤ s.grounding_grounded_threshold score
    then GroundingStatus.grounded
    else if leb_ℤ s.grounding_confirm_threshold score
    then GroundingStatus.confirm
    else GroundingStatus.flagged

abbrev pub band_order : GroundingStatus → ℕ
band_order GroundingStatus.grounded = 2
band_order GroundingStatus.confirm = 1
band_order GroundingStatus.flagged = 0

unfoldable pub pick_worse_of_two : GroundingStatus → GroundingStatus → GroundingStatus
pick_worse_of_two a b = if leb (band_order a) (band_order b) then a else b

abbrev pub visible_to_this_sector : List ℕ → Option ℕ → Bool
visible_to_this_sector sector_ids none = true
visible_to_this_sector sector_ids (some i) = contains sector_ids i

abbrev pub how_specific_is_this_sector : List ℕ → Option ℕ → ℕ
how_specific_is_this_sector sector_ids none = 0
how_specific_is_this_sector [] (some i) = 1
how_specific_is_this_sector (own ∷ rest) (some i) = if i == own then 2 else 1

-- `rows.sort(key=..., reverse=True)`: equal keys keep their order.
abbrev pub more_specific {ℓ} : {A : Type ℓ} → (A → Option ℕ) → List ℕ → A → A → Bool
more_specific sector_of sector_ids x y =
    leb (how_specific_is_this_sector sector_ids (sector_of y))
      (how_specific_is_this_sector sector_ids (sector_of x))

abbrev pub offers_type : Option ℕ → List ℕ → ThreatTypeRow → Bool
offers_type category sector_ids r =
    r.is_active
    && visible_to_this_sector sector_ids r.sector_id
    && elim category [ none ↦ true | some c ↦ is_some_of r.primary_threat_category_id c ]

unfoldable pub get_possible_types : Option ℕ → List ℕ → Db → List ThreatTypeRow
get_possible_types category sector_ids db =
    sort_by (more_specific (λ r. r.sector_id) sector_ids)
      (select_where (offers_type category sector_ids) db.threat_types)

abbrev pub offers_name : ℕ → List ℕ → ThreatCatalogueRow → Bool
offers_name type_id sector_ids r =
    r.is_active && r.threat_type_id == type_id && visible_to_this_sector sector_ids r.sector_id

unfoldable pub get_possible_names : ℕ → List ℕ → Db → List ThreatCatalogueRow
get_possible_names type_id sector_ids db =
    sort_by (more_specific (λ r. r.sector_id) sector_ids)
      (select_where (offers_name type_id sector_ids) db.threat_catalogue)

-- The actors that are mapped to the type, by name.
abbrev is_mapped : ℕ → ThreatActorRow → List TypeActorRow → Bool
is_mapped type_id a [] = false
is_mapped type_id a (link ∷ links) =
    (link.threat_type_id == type_id && link.threat_actor_id == a.threat_actor_id)
    || is_mapped type_id a links

unfoldable pub get_allowed_actor_names : ℕ → Db → List String
get_allowed_actor_names type_id db =
    map (λ a. a.threat_actor_name)
      (select_where (λ a. is_mapped type_id a db.type_actors && a.is_active) db.threat_actors)

-- `[x for x in raw if isinstance(x, str)]`
abbrev texts_of : Items → List String
texts_of Items.nil = []
texts_of (Items.cons (Json.str t) rest) = t ∷ texts_of rest
texts_of (Items.cons Json.null rest) = texts_of rest
texts_of (Items.cons (Json.bool b) rest) = texts_of rest
texts_of (Items.cons (Json.num n) rest) = texts_of rest
texts_of (Items.cons (Json.arr xs) rest) = texts_of rest
texts_of (Items.cons (Json.obj fs) rest) = texts_of rest

unfoldable pub ensure_actor_list : Option Json → List String
ensure_actor_list none = []
ensure_actor_list (some (Json.str t)) = t ∷ []
ensure_actor_list (some (Json.arr xs)) = texts_of xs
ensure_actor_list (some Json.null) = []
ensure_actor_list (some (Json.bool b)) = []
ensure_actor_list (some (Json.num n)) = []
ensure_actor_list (some (Json.obj fs)) = []

abbrev pub ensure_text : Option Json → String → String
ensure_text (some (Json.str t)) default = t
ensure_text _ default = default

module _ (py : Builtins) where
  abbrev names_category : String → ThreatCategoryRow → Bool
  names_category p r =
      r.is_active
      && (py.sql_lower r.threat_category_name == p
          || elim r.threat_category_code [ none ↦ false | some code ↦ py.sql_lower code == p ])

  abbrev first_category : List ThreatCategoryRow → Option ℕ
  first_category [] = none
  first_category (r ∷ rs) = some r.threat_category_id

  unfoldable pub find_category : String → Db → Option ℕ
  find_category proposed db =
      let p = py.folded proposed in
      if p == ""
      then none
      else first_category (
          order_by (λ r. r.threat_category_id)
            (select_where (names_category p) db.threat_categories))

-- The best of the shortlist, with its rerank score; `none` where there is no candidate.
module _ {A : Type 0} (s : Settings) (m : Models) (query : String) (name_of : A → String) where
  abbrev pub by_score : A × ℤ → A × ℤ → Bool
  by_score x y = leb_ℤ y.1 x.1

  abbrev pub pairs_with : (A → ℤ) → List A → List (A × ℤ)
  pairs_with f [] = []
  pairs_with f (r ∷ rs) = (r, f r) ∷ pairs_with f rs

  abbrev pub zip_scores : List A → List ℤ → List (A × ℤ)
  zip_scores [] ks = []
  zip_scores (r ∷ rs) [] = []
  zip_scores (r ∷ rs) (k ∷ ks) = (r, k) ∷ zip_scores rs ks

  abbrev pub firsts : List (A × ℤ) → List A
  firsts = map (λ x. x.0)

  abbrev pub or_all : List (A × ℤ) → List (A × ℤ) → List (A × ℤ)
  or_all [] scored = scored
  or_all (x ∷ xs) scored = x ∷ xs

  unfoldable pub shortlist : List A → List A
  shortlist rows =
      let scored = sort_by by_score (pairs_with (λ r. m.similarity query (name_of r)) rows) in
      let above = select_where (λ x. leb_ℤ s.semantic_match_threshold x.1) scored in
      take s.grounding_shortlist_k (firsts (or_all above scored))

  abbrev pub head_match : List (A × ℤ) → Option A × ℤ
  head_match [] = (none, pos 0)
  head_match ((r, k) ∷ rest) = (some r, k)

  unfoldable pub rank_shortlist : List A → Attempt (Option A × ℤ)
  rank_shortlist [] = returns (none, pos 0)
  rank_shortlist (r ∷ rs) = elim (m.rerank query (map name_of (r ∷ rs))) [
    | none ↦ raises failed
    | some ks ↦
        (if nat_beq (length ks) (length (r ∷ rs))
          then returns (head_match (sort_by by_score (zip_scores (r ∷ rs) ks)))
          else raises failed)
  ]

  unfoldable pub find_closest_match : List A → Attempt (Option A × ℤ)
  unfolding rank_shortlist shortlist
  find_closest_match rows = rank_shortlist (shortlist rows)

pub record GroundingResult : Type 0 where
  pub status : GroundingStatus
  pub type_id : Option ℕ
  pub catalogue_id : Option ℕ
  pub library_type : Option String
  pub library_name : Option String
  pub score : ℤ
  pub actors : List String
  pub actors_validated : Bool

module _ (py : Builtins) (s : Settings) (m : Models) where
  abbrev flagged_result : ℤ → List String → GroundingResult
  flagged_result score actors = record {
    status = GroundingStatus.flagged;
    type_id = none;
    catalogue_id = none;
    library_type = none;
    library_name = none;
    score = score;
    actors = actors;
    actors_validated = false;
  }

  abbrev pub name_status : Option ThreatCatalogueRow → ℤ → GroundingStatus
  name_status none score = GroundingStatus.flagged
  name_status (some r) score = label_match_from_score s score

  abbrev catalogue_id_of : Option ThreatCatalogueRow → Option ℕ
  catalogue_id_of none = none
  catalogue_id_of (some r) = some r.threat_catalogue_id

  abbrev catalogue_name_of : Option ThreatCatalogueRow → Option String
  catalogue_name_of none = none
  catalogue_name_of (some r) = some r.threat_name

  -- The verdict once the type has matched.
  abbrev pub matched_result :
      Db → List String → ThreatTypeRow → ℤ → Option ThreatCatalogueRow → ℤ → GroundingResult
  matched_result db actors_in trow tscore crow cscore = record {
    status = pick_worse_of_two (label_match_from_score s tscore) (name_status crow cscore);
    type_id = some trow.threat_type_id;
    catalogue_id = catalogue_id_of crow;
    library_type = some trow.threat_type_name;
    library_name = catalogue_name_of crow;
    score = min_ℤ tscore cscore;
    actors =
        select_where (λ a. contains (get_allowed_actor_names trow.threat_type_id db) a) actors_in;
    actors_validated = true;
  }

  unfoldable pub match_name :
      Db → List ℕ → Fields → List String → ThreatTypeRow → ℤ → Attempt GroundingResult
  match_name db sector_ids proposed actors_in trow tscore =
      find_closest_match s m (ensure_text (get proposed "name") "") (λ r. r.threat_name)
        (get_possible_names trow.threat_type_id sector_ids db)
      >>= λ (crow, cscore). returns (matched_result db actors_in trow tscore crow cscore)

  abbrev pub after_type :
      Db → List ℕ → Fields → List String → Option ThreatTypeRow → ℤ → Attempt GroundingResult
  after_type db sector_ids proposed actors_in none tscore =
      returns (flagged_result tscore actors_in)
  after_type db sector_ids proposed actors_in (some trow) tscore =
      if label_match_from_score s tscore == GroundingStatus.flagged
      then returns (flagged_result tscore actors_in)
      else match_name db sector_ids proposed actors_in trow tscore

  unfoldable pub find_threat_in_library : Db → List ℕ → Fields → Attempt GroundingResult
  find_threat_in_library db sector_ids proposed =
      let category = find_category py (ensure_text (get proposed "category") "") db in
      find_closest_match s m (ensure_text (get proposed "type") "") (λ r. r.threat_type_name)
        (get_possible_types category sector_ids db)
      >>= λ (trow, tscore).
          after_type db sector_ids proposed (ensure_actor_list (get proposed "actors")) trow tscore
