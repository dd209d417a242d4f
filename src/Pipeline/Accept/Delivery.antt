-- ===== src/Pipeline/Accept/Delivery.antt =====
-- From an accept of app/pipeline/accept.py to what a consumer reads by app/db/dal.py.
use mathlib.Core.List.{Memᴰ}
use tsg.Base.{
  ℕ, ◌≡◌, refl, ap, sym, subst, ◌∙◌, true, not, ◌&&◌, Option, List, [], ◌∷◌, arith, map, ◌==◌,
  nat_eq,
}
use tsg.Models.{Db, SessionRow, OutputRow, ThreatRow, ScopedRow}
use tsg.Python.{Builtins}
use tsg.World.{World}
use tsg.Dal.Settings.{Settings}
use tsg.Dal.Contract.Scenarios.{contract_row, accepted_scenarios}
use tsg.Dal.Contract.Complete.{accepted_scenarios_complete}
use tsg.Pipeline.Locks.{release_all}
use tsg.Pipeline.Promotion.Frame.{unlinked}
use tsg.Pipeline.Accept.{accepted, approve, accept_session}
use tsg.Pipeline.Accept.Cases.{found_id, locks_of, taken_by, good_of, accept_session_cases}
use tsg.Pipeline.Accept.Refused.{OnlyBoard, take_locks-OnlyBoard, release_all-OnlyBoard}
use tsg.Pipeline.Accept.Effect.{
  Reviewed, Approved, is_under_review, is_chosen, reviewed_output, reviewed_profile, completed_row,
  reviewed_subsystems_lem, approve_lem,
}

module _ (sid : ℕ) (subset : Option (List ℕ)) (old : Db) (w w₁ w₂ w₃ : World)
    (before : OnlyBoard w w₁) (after : OnlyBoard w₂ w₃)
    (approved : Approved sid subset old w₁ w₂) where
  open approved use {review, outside}

  Approved-across :
      Reviewed sid w.now subset old w.db w₃.db × (w₃.saved ≡ w.saved) × (w₃.events ≡ w.events)
  Approved-across =
      let at_start = ap (λ v. v.db) before in
      let now_same = ap (λ v. v.now) before in
      (
        record {
          outputs_reviewed =
              ap (λ v. v.db.outputs) after
              ∙ review.outputs_reviewed
              ∙ ap (λ v. map (reviewed_output sid subset old) v.db.outputs) before;
          profiles_reviewed =
              ap (λ v. v.db.profiles) after
              ∙ review.profiles_reviewed
              ∙ ap (λ v. map (reviewed_profile sid old) v.db.profiles) before;
          session_completed =
              ap (λ v. v.db.sessions) after
              ∙ review.session_completed
              ∙ ap (λ v. map (completed_row v.now sid) v.db.sessions) before;
          same_scoped =
              ap (λ v. v.db.scoped) after ∙ review.same_scoped ∙ ap (λ v. v.db.scoped) before;
          same_threats =
              ap (λ v. map unlinked v.db.threats) after
              ∙ review.same_threats
              ∙ ap (λ v. map unlinked v.db.threats) before;
        },
        ap (λ v. v.saved) after ∙ outside.0 ∙ ap (λ v. v.saved) before,
        ap (λ v. v.events) after ∙ outside.1 ∙ ap (λ v. v.events) before,
      )

module _ (s : Settings) (py : Builtins) (uuid4 identity : ℕ → ℕ) where
  -- An accept that goes through writes exactly the review, into the open transaction: the session is
  -- completed now; of its current outputs and profiles, those of the subsystems whose scenarios waited
  -- for the reviewer are accepted, the outputs only if the reviewer chose them; all other rows of
  -- these tables are as before, the scoped threats too, and the threats but for their library ids. It
  -- publishes no event and commits nothing.
  pub accept_session-Reviewed :
      (sid entity : ℕ) (user : Option ℕ) (subset : Option (List ℕ)) (w : World)
      → (accept_session s py uuid4 identity sid entity user subset w).0 ≡ accepted
      → let w' = (accept_session s py uuid4 identity sid entity user subset w).1 in
        Reviewed sid w.now subset w.db w.db w'.db × (w'.saved ≡ w.saved) × (w'.events ≡ w.events)
  accept_session-Reviewed sid entity user subset w =
      accept_session_cases s py uuid4 identity sid entity user subset w
        (λ answer w'. answer ≡ accepted → Outcome w') (λ e h. absurd (ground (arith, h)))
        (λ x found gate taken w₁ t h. absurd (ground (arith, h)))
        (λ x found gate taken w₁ t e m h. absurd (ground (arith, h)))
        (λ x found gate taken w₁ t m h.
          approved x (found_id sid entity w.db x found) taken w₁ (ap (λ r. r.2) t))
    where
      Outcome : World → Type 0
      Outcome w' =
          Reviewed sid w.now subset w.db w.db w'.db × (w'.saved ≡ w.saved) × (w'.events ≡ w.events)

      approved :
          (x : SessionRow)
          → x.session_id ≡ sid
          → (taken : List ℕ) (w₁ : World) → (taken_by s w x).2 ≡ w₁
          → Outcome (
              release_all x.session_id taken
                (approve s py uuid4 identity x (good_of w x) user subset w₁))
      approved x same taken w₁ t =
          let w₂ = approve s py uuid4 identity x (good_of w x) user subset w₁ in
          subst
            (λ i.
              let w' = release_all x.session_id taken w₂ in
              Reviewed i w.now subset w.db w.db w'.db
              × (w'.saved ≡ w.saved)
              × (w'.events ≡ w.events))
            same
            (Approved-across x.session_id subset w.db w w₁ w₂ (release_all x.session_id taken w₂)
              (subst (OnlyBoard w) t (take_locks-OnlyBoard s x.session_id (locks_of w x) [] w))
              (release_all-OnlyBoard x.session_id taken w₂)
              (approve_lem s py uuid4 identity x (good_of w x) user subset w.db w₁
                (λ ss. reviewed_subsystems_lem x.session_id ss w.db)))

module _ {A B : Type 0} (f : A → B) where
  mem-map : {a : A} (xs : List A) → Memᴰ a xs → Memᴰ (f a) (map f xs)
  mem-map [] m = elim m [ ]
  mem-map (x ∷ xs) (Memᴰ.head e) = Memᴰ.head (ap f e)
  mem-map (x ∷ xs) (Memᴰ.tail m) = Memᴰ.tail (mem-map xs m)

  mem-map_inv : {b : B} (xs : List A) → Memᴰ b (map f xs) → (a : A) × Memᴰ a xs × (f a ≡ b)
  mem-map_inv [] m = elim m [ ]
  mem-map_inv (x ∷ xs) (Memᴰ.head e) = (x, Memᴰ.head refl, sym e)
  mem-map_inv (x ∷ xs) (Memᴰ.tail m) = let (a, n, e) = mem-map_inv xs m in (a, Memᴰ.tail n, e)

module _ (s : Settings) (py : Builtins) (uuid4 identity : ℕ → ℕ) where
  -- What a reviewer accepts, the consumer reads: after an accept that went through, a current output of
  -- the session that was chosen and whose subsystem's scenarios waited for the reviewer is among the
  -- accepted scenarios, joined to its threat, of which only the library ids may be new.
  pub accept_session_delivers :
      (sid entity : ℕ) (user : Option ℕ) (subset : Option (List ℕ)) (w : World) (o : OutputRow)
      (st : ScopedRow) (t : ThreatRow)
      → (accept_session s py uuid4 identity sid entity user subset w).0 ≡ accepted
      → Memᴰ o w.db.outputs
      → Memᴰ st w.db.scoped
      → Memᴰ t w.db.threats
      → (o.session_id == sid && not o.superseded) ≡ true
      → is_under_review sid o.subsystem_id w.db ≡ true
      → is_chosen subset o.output_id ≡ true
      → o.scoped_threat_id ≡ st.scoped_threat_id
      → st.threat_id ≡ t.threat_id
      → let w' = (accept_session s py uuid4 identity sid entity user subset w).1 in
        (t' : ThreatRow) × (unlinked t' ≡ unlinked t)
        × Memᴰ (contract_row o t') (accepted_scenarios sid w'.db)
  accept_session_delivers sid entity user subset w o st t went mo ms mt current review chosen
        scoped_as of_threat =
      let (done, _, _) =
        accept_session-Reviewed s py uuid4 identity sid entity user subset w went in
      let db' = (accept_session s py uuid4 identity sid entity user subset w).1.db in
      let mo' : Memᴰ (reviewed_output sid subset w.db o) db'.outputs =
        subst (Memᴰ (reviewed_output sid subset w.db o)) (sym done.outputs_reviewed)
          (mem-map (reviewed_output sid subset w.db) w.db.outputs mo) in
      let ms' : Memᴰ st db'.scoped = subst (Memᴰ st) (sym done.same_scoped) ms in
      let (t', mt', same) =
        mem-map_inv unlinked db'.threats
          (subst (Memᴰ (unlinked t)) (sym done.same_threats) (mem-map unlinked w.db.threats mt)) in
      let id : t'.threat_id ≡ t.threat_id = ap (λ r. r.threat_id) same in
      (
        t',
        same,
        accepted_scenarios_complete sid db' (reviewed_output sid subset w.db o) st t' mo' ms' mt'
            (ground (arith, current, review, chosen)) scoped_as (of_threat ∙ sym id),
      )
