-- ===== src/Pipeline/Cascade/Resume.antt =====
-- What the threat step of app/pipeline/cascade.py leaves for a second look at the same request.
use tsg.Base.{
  ℕ, ◌≡◌, refl, ap, sym, subst, ◌∙◌, Bool, true, false, ◌&&◌, Option, none, some, List, [], ◌∷◌,
  arith, ◌==◌, nat_eq, if◌then◌else◌, contains, select_where, find_where, update_where,
  find_where_sat,
}
use tsg.Enums.{RegenGranularity}
use tsg.Models.{Db, SessionRow, Subsystem, ThreatRow, ScopedRow}
use tsg.Dal.Outputs.{
  is_current, active_threats, supersede_by_threat, active_scoped_threat_id, threat_generation,
  scoped_generation, threat_per_threat, scoped_per_threat,
}
use tsg.Failure.{Attempt, returns, raises}
use tsg.World.{World}
use tsg.Pipeline.Grounding.{GroundingResult, find_threat_in_library}
use tsg.Pipeline.Run.{Services}
use tsg.Pipeline.Stages.{threat_row}
use tsg.Pipeline.Cascade.{
  conflict, get_threat_id_to_redo, lookup_targets, is_live, proposal_of, retire_lineage,
  replace_threat, settle_verdict, reground_row, reground_one_threat,
  find_threat_to_resume_after_crash,
}

module _ {ℓ} {A : Type ℓ} (q p : A → Bool) (f : A → A)
    (spent : (x : A) → q (if p x then f x else x) ≡ false) where
  select_where-update_where_none : (xs : List A) → select_where q (update_where p f xs) ≡ []
  select_where-update_where_none [] = refl
  select_where-update_where_none (x ∷ xs) =
      ground (arith, spent x, select_where-update_where_none xs)

  find_where-update_where-none : (xs : List A) → find_where q (update_where p f xs) ≡ none
  find_where-update_where-none [] = refl
  find_where-update_where-none (x ∷ xs) = ground (arith, spent x, find_where-update_where-none xs)

module _ (sid ss t : ℕ) where
  -- No current row of the supersession's threat is left.
  retired_threats :
      (ts : List ThreatRow)
      → select_where
          (λ r. contains (t ∷ []) r.threat_id && is_current sid ss r)
          (supersede_by_threat sid ss t ts)
        ≡ []
  unfolding supersede_by_threat
  retired_threats =
      select_where-update_where_none (λ r. contains (t ∷ []) r.threat_id && is_current sid ss r)
        (λ r. is_current sid ss r && r.threat_id == t) threat_generation.retire (λ r. ground arith)

  retired_scoped :
      (sts : List ScopedRow)
      → find_where (λ r. is_current sid ss r && r.threat_id == t) (supersede_by_threat sid ss t sts)
        ≡ none
  unfolding supersede_by_threat
  retired_scoped =
      find_where-update_where-none (λ r. is_current sid ss r && r.threat_id == t)
        (λ r. is_current sid ss r && r.threat_id == t) scoped_generation.retire (λ r. ground arith)

  retired_scoped_id :
      (sts : List ScopedRow)
      → active_scoped_threat_id sid ss t (supersede_by_threat sid ss t sts) ≡ none
  unfolding active_scoped_threat_id
  retired_scoped_id sts = rw (active_scoped_threat_id, retired_scoped sts) refl

  -- A new row in front, of another threat.
  conflict_after :
      (new : ThreatRow) (ts : List ThreatRow) (db : Db)
      → ¬ (new.threat_id ≡ t)
      → db.threats ≡ new ∷ supersede_by_threat sid ss t ts
      → get_threat_id_to_redo sid ss RegenGranularity.threat (some (t ∷ [])) db ≡ conflict
  unfolding get_threat_id_to_redo lookup_targets
  conflict_after new ts db other e =
      let none_left : select_where asked db.threats ≡ [] =
        ap (select_where asked) e ∙ ground (arith, other, retired_threats ts) in
      rw none_left refl
    where
      asked : ThreatRow → Bool
      asked r = contains (t ∷ []) r.threat_id && is_current sid ss r

  -- A new current row in front is found by its id.
  resumes_after :
      (sv : Services) (new_threat_id : ℕ → ℕ → ℕ → ℕ → ℕ) (epoch : ℕ) (new : ThreatRow)
      (ts : List ThreatRow) (db : Db)
      → new.threat_id ≡ new_threat_id sid ss t epoch
      → is_current sid ss new ≡ true
      → db.threats ≡ new ∷ ts
      → find_threat_to_resume_after_crash sv new_threat_id sid ss RegenGranularity.threat
          (some (t ∷ []))
          epoch
          db
        ≡ new_threat_id sid ss t epoch ∷ []
  unfolding find_threat_to_resume_after_crash active_threats
  resumes_after sv new_threat_id epoch new ts db same current e =
      let rows : select_where (is_current sid ss) db.threats
          ≡ new ∷ select_where (is_current sid ss) ts =
        ap (select_where (is_current sid ss)) e ∙ ground (arith, current) in
      rw rows (ground (arith, same))

module _ (sv : Services) (new_threat_id : ℕ → ℕ → ℕ → ℕ → ℕ) (x : SessionRow) (sub : Subsystem)
    (epoch : ℕ) where
  Resumable : ℕ → ℕ → Db → Type 0
  Resumable t i db =
      (get_threat_id_to_redo x.session_id sub.id RegenGranularity.threat (some (t ∷ [])) db
        ≡ conflict)
      × (find_threat_to_resume_after_crash sv new_threat_id x.session_id sub.id
            RegenGranularity.threat (some (t ∷ [])) epoch db
          ≡ i ∷ [])
      × (active_scoped_threat_id x.session_id sub.id t db.scoped ≡ none)

  replaced-Resumable :
      (t : ThreatRow) (g : GroundingResult) (w : World)
      → ¬ (new_threat_id x.session_id sub.id t.threat_id epoch ≡ t.threat_id)
      → Resumable t.threat_id
          (new_threat_id x.session_id sub.id t.threat_id epoch)
          (replace_threat sv new_threat_id x sub t epoch g w).db
  unfolding Resumable replace_threat retire_lineage active_scoped_threat_id
  replaced-Resumable t g w other =
      let sid = x.session_id in
      let db' = (replace_threat sv new_threat_id x sub t epoch g w).db in
      let new =
        threat_row sv x sub.id t.threat_category t.threat_type t.threat_name g
          (new_threat_id sid sub.id t.threat_id epoch) w in
      (
        conflict_after sid sub.id t.threat_id new w.db.threats db' other refl,
        resumes_after sid sub.id t.threat_id sv new_threat_id epoch new _ db' refl (ground arith)
            refl,
        retired_scoped_id sid sub.id t.threat_id w.db.scoped,
      )

  -- A threat that was matched anew is superseded, so the same request is a conflict now, and exactly its
  -- replacement, whose id is computed again, is found; the old scoped threat is not current any more.
  pub reground_one_threat_resumable :
      (t i : ℕ) (w : World)
      → ¬ (new_threat_id x.session_id sub.id t epoch ≡ t)
      → (reground_one_threat sv new_threat_id x sub t epoch w).0 ≡ returns (some i)
      → let db' = (reground_one_threat sv new_threat_id x sub t epoch w).1.db in
        (get_threat_id_to_redo x.session_id sub.id RegenGranularity.threat (some (t ∷ [])) db'
          ≡ conflict)
        × (find_threat_to_resume_after_crash sv new_threat_id x.session_id sub.id
              RegenGranularity.threat
              (some (t ∷ []))
              epoch
              db'
            ≡ i ∷ [])
        × (active_scoped_threat_id x.session_id sub.id t db'.scoped ≡ none)
  unfolding reground_one_threat Resumable
  reground_one_threat_resumable t i w other =
      row (find_where (is_live sv new_threat_id x.session_id t) w.db.threats) refl
    where
      Ends : Attempt (Option ℕ) × World → Type 0
      Ends (answer, w') = answer ≡ returns (some i) → Resumable t i w'.db

      verdict :
          (r : ThreatRow)
          → r.threat_id ≡ t
          → (v : Attempt GroundingResult) → Ends (settle_verdict sv new_threat_id x sub r epoch w v)
      verdict r same (raises e) h = absurd (ground (arith, h))
      verdict r same (returns g) h =
          let id : new_threat_id x.session_id sub.id r.threat_id epoch ≡ i = cc in
          let other' =
            subst (λ u. ¬ (new_threat_id x.session_id sub.id u epoch ≡ u)) (sym same) other in
          let db' = (replace_threat sv new_threat_id x sub r epoch g w).db in
          subst (λ u. Resumable u i db') same
            (subst (λ j. Resumable r.threat_id j db') id (replaced-Resumable r g w other'))

      row :
          (o : Option ThreatRow)
          → find_where (is_live sv new_threat_id x.session_id t) w.db.threats ≡ o
          → Ends (reground_row sv new_threat_id x sub epoch o w)
      row none e h = absurd (ground (arith, h))
      row (some r) e h =
          let live = find_where_sat (is_live sv new_threat_id x.session_id t) w.db.threats e in
          verdict r (ground (arith, live))
            (find_threat_in_library sv.py sv.settings sv.models w.db x.sector_ids
              (proposal_of sv new_threat_id r))
            h
