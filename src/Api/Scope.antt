-- ===== src/Api/Scope.antt =====
-- What a caller from outside the entity of a session gets from app/api/sessions.py.
use tsg.Base.{
  ℕ, ◌≡◌, refl, String, false, Option, none, some, List, nat_eq, contains, ◌⊎◌, inl, inr,
}
use tsg.Enums.{RegenGranularity}
use tsg.Models.{Db, SessionRow}
use tsg.Python.{Builtins}
use tsg.World.{World, rollback}
use tsg.Dal.Settings.{Settings}
use tsg.Dal.Sessions.{Result, load_session}
use tsg.Api.{
  Principal, Response, fails, answers, authorize, get_authorized_session, with_session, on_session,
  close_session, status_code,
}
use tsg.Api.Routes.{get_board, get_results, post_accept, post_cancel}
use tsg.Api.Regenerate.{do_regenerate}

-- The session does not exist, or is of an entity that the caller may not act for.
abbrev pub IsOutside : ℕ → Principal → Db → Type 0
IsOutside sid p db =
    (x : SessionRow) → load_session sid db ≡ some x → contains p.entities x.entity_id ≡ false

-- The failure has status 404 or 403, and the transaction is rolled back.
abbrev pub Denied : {A : Type 0} → Response A × World → World → Type 0
Denied (answers a, w') w = ⊥
Denied (fails e, w') w = ((status_code e ≡ 404) ⊎ (status_code e ≡ 403)) × (w' ≡ rollback w)

module _ (sid : ℕ) (p : Principal) where
  with_session-Denied :
      {A : Type 0} (route : SessionRow → World → Response A × World) (w : World)
      → IsOutside sid p w.db
      → Denied (with_session sid p route w) w
  unfolding with_session get_authorized_session status_code
  with_session-Denied {A} route w outside = go (load_session sid w.db) refl
    where
      go :
          (o : Option SessionRow)
          → load_session sid w.db ≡ o
          → Denied (close_session (on_session (authorize p o) route w)) w
      go none e = (inl refl, refl)
      go (some x) e = rw (outside x e) (inr refl, refl)

  -- A caller from outside the entity of a session gets 404 or 403 from the load that opens the event
  -- stream, the results, the accept, the cancel, and from `_do_regenerate`, the body that the
  -- regenerate routes share, where it is called; none of them leaves a trace: not in the database,
  -- not in what is committed, and no event.
  pub routes-Denied :
      (w : World)
      → IsOutside sid p w.db
      → Denied (get_board sid p w) w
        × Denied (get_results sid p w) w
        × ((s : Settings) (py : Builtins) (uuid4 identity : ℕ → ℕ) (subset : Option (List ℕ))
            → Denied (post_accept s py uuid4 identity sid subset p w) w
              × Denied (post_cancel s py uuid4 identity sid p w) w)
        × ((ss : ℕ) (granularity : RegenGranularity) (resolve : Db → Result (Option (List ℕ)))
              (note : Option String)
            → Denied (do_regenerate sid ss granularity resolve note p w) w)
  unfolding get_board get_results post_accept post_cancel do_regenerate
  routes-Denied w outside = (
    with_session-Denied _ w outside,
    with_session-Denied _ w outside,
    λ s py uuid4 identity subset.
        (with_session-Denied _ w outside, with_session-Denied _ w outside),
    λ ss granularity resolve note. with_session-Denied _ w outside,
  )
