-- ===== src/Dal/Contract.antt =====
-- app/db/dal.py: what a downstream consumer reads of an asset: its latest completed session, and the
-- scenarios accepted there.
pub mod Latest
pub mod Scenarios
pub mod Complete
use mathlib.Core.List.{Memᴰ}
use tsg.Base.{
  ℕ, ◌≡◌, ◌≢◌, ◌≤◌, ◌↔◌, ◌⊎◌, inl, inr, Bool-cases, refl, String, Bool, true, false, not, ◌&&◌,
  ◌||◌, Option, none, some, List, [], ◌∷◌, ◌++◌, arith, All-mono, ltb, leb, ◌==◌, if◌then◌else◌,
  nat_eq, string_eq, All, select_where, find_where, map,
}
use tsg.Base.Sort.{sort_by}
use tsg.Enums.{SessionStatus, session_status_eq, session_status_iff}
use tsg.Json.{Json}
use tsg.Models.{Db, SessionRow, ThreatRow, ScopedRow, OutputRow}

abbrev pub is_completed_of : ℕ → ℕ → SessionRow → Bool
is_completed_of entity asset r =
    r.entity_id == entity
    && r.asset_external_id == asset
    && r.session_status == SessionStatus.completed

-- `ORDER BY CompletedAt DESC`, NULL last, then `SessionID`.
abbrev later_than : Option ℕ → Option ℕ → Bool
later_than none t = false
later_than (some a) none = true
later_than (some a) (some b) = ltb b a

abbrev same_time : Option ℕ → Option ℕ → Bool
same_time none none = true
same_time (some a) (some b) = a == b
same_time none (some b) = false
same_time (some a) none = false

abbrev pub goes_first : SessionRow → SessionRow → Bool
goes_first x y =
    later_than x.completed_at y.completed_at
    || (same_time x.completed_at y.completed_at && leb x.session_id y.session_id)

-- `ORDER BY ... LIMIT 1`
first_of : List SessionRow → Option SessionRow
first_of [] = none
first_of (r ∷ rows) =
    let rest = first_of rows in
    elim rest [ none ↦ some r | some x ↦ (if goes_first r x then some r else some x) ]

pub latest_completed_session : ℕ → ℕ → Db → Option SessionRow
unfolding first_of
latest_completed_session entity asset db =
    first_of (select_where (is_completed_of entity asset) db.sessions)
