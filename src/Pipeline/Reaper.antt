-- ===== src/Pipeline/Reaper.antt =====
-- app/pipeline/reaper.py: the periodic pass that finishes sessions whose worker died.
pub mod Batches
pub mod Abandoned
pub mod CloseOut
use tsg.Base.{
  distinct, ℕ, zero, suc, ◌+◌, String, Bool, true, false, not, ◌&&◌, ◌||◌, Option, none, some, List,
  [], ◌∷◌, ◌++◌, map, ltb, ◌==◌, if◌then◌else◌, nat_eq, any, contains, length, take, drop,
  select_where,
}
use tsg.Enums.{
  SessionStatus, WorkflowStage, StageStatus, SubsystemLevel, session_status_eq, workflow_stage_eq,
  stage_status_eq, level_eq,
}
use tsg.Models.{Db, SessionRow, StageRow}
use tsg.Dal.Settings.{Settings}
use tsg.Dal.Sessions.{is_session}
use tsg.Dal.Stages.{
  update_stages, is_in_flight, is_work_row, acquire_lock, release_lock, subsystem_ids_at_level,
  with_status, released,
}
use tsg.Pipeline.Locks.{take_locks, release_all}
use tsg.World.{World, SessionRef, ref_of, commit, on_db}
use tsg.Pipeline.Outcome.{Outcome, cancelled, decide_session_outcome}

abbrev pub in_chunk : ℕ
in_chunk = 1000

-- Slices of `k` from the front; `fuel` bounds their number.
batches : ℕ → ℕ → List ℕ → List (List ℕ)
batches k zero items = []
batches k (suc fuel) [] = []
batches k (suc fuel) (x ∷ xs) = take k (x ∷ xs) ∷ batches k fuel (drop k (x ∷ xs))

-- `_split_into_batches`: there are never more batches than items.
pub split_into_batches : List ℕ → List (List ℕ)
unfolding batches
split_into_batches items = batches in_chunk (length items) items

-- `LeaseExpiresAt IS NOT NULL AND LeaseExpiresAt < now`
abbrev pub is_expired : ℕ → StageRow → Bool
is_expired now r = elim r.lease_expires_at [ none ↦ false | some l ↦ ltb l now ]

abbrev pub is_dead : ℕ → StageRow → Bool
is_dead now r = r.status == StageStatus.running && is_expired now r

abbrev is_dead_work : ℕ → StageRow → Bool
is_dead_work now r = not (r.level == SubsystemLevel.lock) && is_dead now r

abbrev is_dead_lock : ℕ → StageRow → Bool
is_dead_lock now r = r.level == SubsystemLevel.lock && is_dead now r

abbrev errored : ℕ → StageRow → StageRow
errored now r = record r { status = StageStatus.error; lease_expires_at = none; updated_at = now }

-- Steps 1 and 2: each batch is updated by its state ids, and checked again.
update_batches : ℕ → (StageRow → StageRow) → List (List ℕ) → Db → Db
update_batches now f [] db = db
update_batches now f (ids ∷ rest) db =
    update_batches now f rest (update_stages (λ r. contains ids r.state_id && is_dead now r) f db)

abbrev pub has_live_lease : ℕ → ℕ → Db → Bool
has_live_lease now sid db =
    any (λ r. r.session_id == sid && elim r.lease_expires_at [ none ↦ false | some l ↦ ltb now l ])
      db.stages

-- Active, not at REVIEW, and no worker running.
abbrev pub is_candidate : ℕ → Db → SessionRow → Bool
is_candidate now db r =
    r.session_status == SessionStatus.active
    && not (r.current_stage == WorkflowStage.review)
    && not (has_live_lease now r.session_id db)

-- Untouched for a full lease: `UpdatedAt < now - stage_lease_seconds`.
abbrev pub is_stale : Settings → ℕ → SessionRow → Bool
is_stale s now r = ltb (r.updated_at + s.stage_lease_seconds) now

-- The second query of `_find_abandoned_sessions`, batch by batch, on the dict `out`.
abbrev has_row : ℕ → List SessionRow → Bool
has_row sid = any (is_session sid)

add_new : List SessionRow → List SessionRow → List SessionRow
add_new [] out = out
add_new (r ∷ rs) out = add_new rs (if has_row r.session_id out then out else out ++ r ∷ [])

add_batches : ℕ → Db → List (List ℕ) → List SessionRow → List SessionRow
unfolding add_new
add_batches now db [] out = out
add_batches now db (ids ∷ rest) out = add_batches now db rest (
    add_new (select_where (λ r. is_candidate now db r && contains ids r.session_id) db.sessions)
      out)

-- `_find_abandoned_sessions`
pub find_abandoned_sessions : Settings → ℕ → List ℕ → Db → List SessionRow
unfolding add_batches split_into_batches
find_abandoned_sessions s now proven_dead db =
    add_batches now db (split_into_batches proven_dead)
      (add_new (select_where (λ r. is_candidate now db r && is_stale s now r) db.sessions) [])

-- `Status IN (IDLE, RUNNING)` → ERROR, "reaped: worker gone".
pub flag_leftovers : ℕ → ℕ → Db → Db
flag_leftovers now sid =
    update_stages (λ r. is_work_row sid r && is_in_flight r.status)
      (with_status now StageStatus.error (some "reaped: worker gone"))

module _ (uuid4 : ℕ → ℕ) (s : Settings) where
  -- The body of the `try`, once every lock is ours.
  finish : SessionRef → World → Option Outcome × World
  unfolding flag_leftovers
  finish x w =
      decide_session_outcome uuid4 x (record w { db = flag_leftovers w.now x.session_id w.db })

  -- `_close_out_one_abandoned_session`
  pub close_out : SessionRef → World → Option Outcome × World
  unfolding take_locks release_all finish subsystem_ids_at_level
  close_out x w =
      let sid = x.session_id in
      let subs = subsystem_ids_at_level sid SubsystemLevel.lock none w.db in
      let (all_ours, acquired, w₁) = take_locks s sid subs [] w in
      let (outcome, w₂) = if all_ours then finish x w₁ else (none, w₁) in
      (outcome, commit (release_all sid acquired w₂))

  abbrev add_cancelled : Option Outcome → ℕ → List ℕ → List ℕ
  add_cancelled (some cancelled) sid ids = sid ∷ ids
  add_cancelled _ sid ids = ids

  -- Step 3: the ids of the sessions that this pass cancelled.
  close_out_all : List SessionRow → World → List ℕ × World
  unfolding close_out
  close_out_all [] w = ([], w)
  close_out_all (r ∷ rs) w =
      let (outcome, w₁) = close_out (ref_of r) w in
      let (ids, w₂) = close_out_all rs w₁ in (add_cancelled outcome r.session_id ids, w₂)

  pub clean_up_abandoned_sessions : World → List ℕ × World
  unfolding close_out_all find_abandoned_sessions update_batches split_into_batches
  clean_up_abandoned_sessions w =
      let work = select_where (is_dead_work w.now) w.db.stages in
      let locks = select_where (is_dead_lock w.now) w.db.stages in
      let proven_dead = distinct (map (λ r. r.session_id) work ++ map (λ r. r.session_id) locks) in
      let db₁ =
        update_batches w.now (errored w.now) (split_into_batches (map (λ r. r.state_id) work))
          w.db in
      let db₂ =
        update_batches w.now (released w.now) (split_into_batches (map (λ r. r.state_id) locks))
          db₁ in
      let w₁ = commit (record w { db = db₂ }) in
      close_out_all (find_abandoned_sessions s w.now proven_dead w₁.db) w₁
