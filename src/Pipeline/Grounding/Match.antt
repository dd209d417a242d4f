-- ===== src/Pipeline/Grounding/Match.antt =====
-- `find_closest_match`: a match is one of the candidates, and none scores higher in the shortlist.
use tsg.Base.{
  ◌≡◌, subst, Bool, true, false, String, Option, none, some, List, [], ◌∷◌, map, length, All,
  nat_beq, if◌then◌else◌,
}
use tsg.Base.Number.{ℤ}
use tsg.Base.Sort.{sort_by, All-sort_by, All-take, All-select_where_sub}
use tsg.Dal.Settings.{Settings}
use tsg.Failure.{Attempt, returns, raises, failed}
use tsg.Pipeline.Grounding.{
  Models, by_score, pairs_with, zip_scores, firsts, or_all, head_match, shortlist, rank_shortlist,
  find_closest_match,
}

module _ {A : Type 0} (P : A → Type 0) (s : Settings) (m : Models) (query : String)
    (name_of : A → String) where
  abbrev Holds : Option A → Type 0
  Holds none = Unit
  Holds (some r) = P r

  All-pairs_with :
      (f : A → ℤ) (rs : List A) → All P rs → All (λ x. P x.0) (pairs_with s m query name_of f rs)
  All-pairs_with f [] h = tt
  All-pairs_with f (r ∷ rs) h = (h.0, All-pairs_with f rs h.1)

  All-zip_scores :
      (rs : List A) (ks : List ℤ) → All P rs → All (λ x. P x.0) (zip_scores s m query name_of rs ks)
  All-zip_scores [] ks h = tt
  All-zip_scores (r ∷ rs) [] h = tt
  All-zip_scores (r ∷ rs) (k ∷ ks) h = (h.0, All-zip_scores rs ks h.1)

  All-firsts : (xs : List (A × ℤ)) → All (λ x. P x.0) xs → All P (firsts s m query name_of xs)
  All-firsts [] h = tt
  All-firsts (x ∷ xs) h = (h.0, All-firsts xs h.1)

  All-or_all :
      (xs ys : List (A × ℤ))
      → All (λ x. P x.0) xs
      → All (λ x. P x.0) ys
      → All (λ x. P x.0) (or_all s m query name_of xs ys)
  All-or_all [] ys h k = k
  All-or_all (x ∷ xs) ys h k = h

  shortlist-All : (rows : List A) → All P rows → All P (shortlist s m query name_of rows)
  unfolding shortlist
  shortlist-All rows h =
      let Q = λ (x : A × ℤ). P x.0 in
      let sorted =
        All-sort_by Q (by_score s m query name_of) _
          (All-pairs_with (λ r. m.similarity query (name_of r)) rows h) in
      All-take P s.grounding_shortlist_k _
        (All-firsts _ (All-or_all _ _ (All-select_where_sub Q _ _ sorted) sorted))

  head-Holds : (xs : List (A × ℤ)) → All (λ x. P x.0) xs → Holds (head_match s m query name_of xs).0
  head-Holds [] h = tt
  head-Holds (x ∷ xs) h = h.0

  -- What a call ends with.
  abbrev Ends : Attempt (Option A × ℤ) → Type 0
  Ends (raises e) = Unit
  Ends (returns (o, k)) = Holds o

  rank-Ends : (rows : List A) → All P rows → Ends (rank_shortlist s m query name_of rows)
  unfolding rank_shortlist
  rank-Ends [] h = tt
  rank-Ends (r ∷ rs) h = ends (m.rerank query (map name_of (r ∷ rs)))
    where
      scored :
          (ks : List ℤ)
          → Holds
              (head_match s m query name_of
                (sort_by (by_score s m query name_of) (zip_scores s m query name_of (r ∷ rs) ks))).0
      scored ks =
          head-Holds _
            (All-sort_by (λ x. P x.0) (by_score s m query name_of) _ (All-zip_scores (r ∷ rs) ks h))

      pick :
          (ks : List ℤ) (b : Bool)
          → Ends (
              if b
              then returns (
                  head_match s m query name_of (
                    sort_by
                      (by_score s m query name_of)
                      (zip_scores s m query name_of (r ∷ rs) ks)))
              else raises failed)
      pick ks true = scored ks
      pick ks false = tt

      ends :
          (o : Option (List ℤ))
          → Ends (elim o [
            | none ↦ raises failed
            | some ks ↦
                (if nat_beq (length ks) (length (r ∷ rs))
                  then returns (
                      head_match s m query name_of (
                        sort_by
                          (by_score s m query name_of)
                          (zip_scores s m query name_of (r ∷ rs) ks)))
                  else raises failed)
          ])
      ends none = tt
      ends (some ks) = pick ks (nat_beq (length ks) (length (r ∷ rs)))

  -- What holds of every candidate holds of the match.
  pub find_closest_match-All :
      (rows : List A) (r : A) (k : ℤ)
      → All P rows
      → find_closest_match s m query name_of rows ≡ returns (some r, k)
      → P r
  unfolding find_closest_match
  find_closest_match-All rows r k h e =
      subst Ends e (rank-Ends (shortlist s m query name_of rows) (shortlist-All rows h))
