-- ===== src/Pipeline/Locks.antt =====
-- The loops by which `accept_session` of app/pipeline/accept.py and `_close_out_one_abandoned_session`
-- of app/pipeline/reaper.py take and give back the `_LOCK` rows of a session, in the session's name.
pub mod Held
use tsg.Base.{ℕ, Bool, true, false, List, [], ◌∷◌, ◌++◌, if◌then◌else◌}
use tsg.Dal.Settings.{Settings}
use tsg.Dal.Stages.{acquire_lock, release_lock}
use tsg.World.{World}

-- The locks acquired, and whether they are all: the loop stops at one that is held.
unfoldable pub take_locks : Settings → ℕ → List ℕ → List ℕ → World → Bool × List ℕ × World
take_locks s sid [] acquired w = (true, acquired, w)
take_locks s sid (ss ∷ rest) acquired w =
    let (won, db') = acquire_lock s w.now sid ss sid w.db in
    let w' = record w { db = db' } in
    let more = take_locks s sid rest (acquired ++ ss ∷ []) w' in
    if won then more else (false, acquired, w')

unfoldable pub release_all : ℕ → List ℕ → World → World
release_all sid [] w = w
release_all sid (ss ∷ rest) w =
    release_all sid rest (record w { db = release_lock w.now sid ss w.db })
