-- ===== src/Pipeline/Accept/Locks.antt =====
-- The locks of `accept_session` of app/pipeline/accept.py, and what must hold for it to go through.
use tsg.Base.{
  ℕ, ◌≡◌, sym, subst, Bool, true, false, Option, some, List, [], arith, nat_eq, inl, inr,
}
use tsg.Enums.{StageStatus, level_eq}
use tsg.Models.{SessionRow}
use tsg.Python.{Builtins}
use tsg.World.{World}
use tsg.Dal.Settings.{Settings}
use tsg.Dal.Stages.Cells.{UniqueCells}
use tsg.Dal.Stages.Mutex.{lock_status, Board, HasStatus}
use tsg.Pipeline.Locks.Held.{Present, Held, mine, take_locks-Held, let_all_go}
use tsg.Pipeline.Accept.{approve, accept_session}
use tsg.Pipeline.Accept.Cases.{locks_of, taken_by, good_of, accept_session_cases}
use tsg.Pipeline.Accept.Effect.{reviewed_subsystems_lem, approve_lem}

module _ (a b sid : ℕ) (status : StageStatus) (taken : List ℕ) (w w' : World)
    (stages : w'.db.stages ≡ w.db.stages) (saved : w'.saved ≡ w.saved) where
  -- The state of a lock depends on the boards only.
  Held-across : Held a b sid status taken w → Held a b sid status taken w'
  unfolding Held
  Held-across (inl (m, i, g)) = inl (
    m,
    i,
    record {
      now = subst (Board a b Present) (sym stages) g.now;
      saved = subst (λ d. Board a b Present d.stages) (sym saved) g.saved;
    },
  )
  Held-across (inr (m, g)) = inr (
    m,
    record {
      now = subst (Board a b (HasStatus status)) (sym stages) g.now;
      saved = subst (λ d. Board a b (HasStatus status) d.stages) (sym saved) g.saved;
    },
  )

module _ (s : Settings) (py : Builtins) (uuid4 identity : ℕ → ℕ) where
  -- However an accept ends, every lock then has the status that it had: the locks taken are given
  -- back, also where a lock is held or a master is inactive, and no other lock is touched. The board
  -- has at most one row for each cell.
  pub accept_session_locks :
      (sid entity : ℕ) (user : Option ℕ) (subset : Option (List ℕ)) (w : World) (a b : ℕ)
      (status : StageStatus)
      → UniqueCells w.db
      → UniqueCells w.saved
      → lock_status a b w.db ≡ some status
      → lock_status a b w.saved ≡ some status
      → lock_status a b (accept_session s py uuid4 identity sid entity user subset w).1.db
        ≡ some status
  unfolding Held mine
  accept_session_locks sid entity user subset w a b status u u' e e' =
      accept_session_cases s py uuid4 identity sid entity user subset w
        (λ answer w'. lock_status a b w'.db ≡ some status) (λ f. e)
        (λ x found gate taken w₁ t.
          (let_all_go a b x.session_id s status taken w₁ (held x false taken w₁ t)).1)
        (λ x found gate taken w₁ t f m.
          (let_all_go a b x.session_id s status taken w₁ (held x true taken w₁ t)).1)
        (λ x found gate taken w₁ t m.
          let approved =
            approve_lem s py uuid4 identity x (good_of w x) user subset w.db w₁
              (λ ss. reviewed_subsystems_lem x.session_id ss w.db) in
          let w₂ = approve s py uuid4 identity x (good_of w x) user subset w₁ in
          (let_all_go a b x.session_id s status taken w₂ (
            Held-across a b x.session_id status taken w₁ w₂ approved.same_stages approved.outside.0
              (held x true taken w₁ t))).1)
    where
      start : (x : SessionRow) → Held a b x.session_id status [] w
      start x = inr (ground arith, record { now = (u, e); saved = (u', e') })

      held :
          (x : SessionRow) (all_ours : Bool) (taken : List ℕ) (w₁ : World)
          → taken_by s w x ≡ (all_ours, taken, w₁)
          → Held a b x.session_id status taken w₁
      held x all_ours taken w₁ t =
          subst (λ r. Held a b x.session_id status r.1 r.2) t
            (take_locks-Held a b x.session_id s status (locks_of w x) [] w (start x))
