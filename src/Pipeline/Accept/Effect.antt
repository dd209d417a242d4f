-- ===== src/Pipeline/Accept/Effect.antt =====
-- What `accept_session` of app/pipeline/accept.py writes: nothing if it refuses, and exactly the review
-- if it accepts.
use tsg.Base.{
  ℕ, ◌≡◌, refl, sym, ◌∙◌, Bool, true, false, not, ◌&&◌, ◌||◌, Option, none, some, List, [], ◌∷◌,
  arith, map, ◌==◌, nat_eq, if◌then◌else◌, any, contains, select_where, update_where,
}
use tsg.Enums.{SessionStatus, WorkflowStage, StageStatus, SubsystemLevel, level_eq, stage_status_eq}
use tsg.Models.{Db, SessionRow, StageRow, ProfileRow, OutputRow}
use tsg.Python.{Builtins}
use tsg.World.{World}
use tsg.Dal.Settings.{Settings}
use tsg.Dal.Sessions.{is_session, complete_session}
use tsg.Dal.Stages.{subsystem_ids_at_level}
use tsg.Dal.Outputs.{in_subset, mark_profiles_accepted, mark_scenarios_accepted}
use tsg.Pipeline.Promotion.{promote_flagged_threats}
use tsg.Pipeline.Promotion.Kept.{SameOutside}
use tsg.Pipeline.Promotion.Frame.{unlinked}
use tsg.Pipeline.Promotion.Scope.{any_same, promote_flagged_threats_frame}
use tsg.Pipeline.Accept.{reviewed_subsystems, record_review, approve}

abbrev awaits_review : ℕ → ℕ → StageRow → Bool
awaits_review sid ss r =
    r.session_id == sid
    && r.subsystem_id == ss
    && r.level == SubsystemLevel.scenarios
    && r.status == StageStatus.awaiting_decision

-- The subsystem's scenarios wait for the reviewer.
abbrev pub is_under_review : ℕ → ℕ → Db → Bool
is_under_review sid ss db = any (awaits_review sid ss) db.stages

-- What the reviewer chose: everything, or the outputs listed.
abbrev pub is_chosen : Option (List ℕ) → ℕ → Bool
is_chosen none i = true
is_chosen (some ids) i = any (λ j. j == i) ids

abbrev pub reviewed_output : ℕ → Option (List ℕ) → Db → OutputRow → OutputRow
reviewed_output sid subset db o = record o {
  accepted =
      (o.session_id == sid
        && not o.superseded
        && is_under_review sid o.subsystem_id db
        && is_chosen subset o.output_id)
      || o.accepted;
}

abbrev pub reviewed_profile : ℕ → Db → ProfileRow → ProfileRow
reviewed_profile sid db r = record r {
  accepted =
      (r.session_id == sid && not r.superseded && is_under_review sid r.subsystem_id db)
      || r.accepted;
}

abbrev pub completed_row : ℕ → ℕ → SessionRow → SessionRow
completed_row now sid r =
    if r.session_id == sid
    then record r {
      session_status = SessionStatus.completed;
      current_stage = WorkflowStage.approved;
      completed_at = some now;
      updated_at = now;
    }
    else r

-- The review of session `sid` at `now`, from one database to the next; the board is that of `old`.
pub record Reviewed (sid now : ℕ) (subset : Option (List ℕ)) (old db db' : Db) : Type 0 where
  pub outputs_reviewed : db'.outputs ≡ map (reviewed_output sid subset old) db.outputs
  pub profiles_reviewed : db'.profiles ≡ map (reviewed_profile sid old) db.profiles
  pub session_completed : db'.sessions ≡ map (completed_row now sid) db.sessions
  pub same_scoped : db'.scoped ≡ db.scoped
  pub same_threats : map unlinked db'.threats ≡ map unlinked db.threats

module _ {A : Type 0} (p : A → Bool) (f g : A → A)
    (same : (x : A) → (b : Bool) → p x ≡ b → (if b then f x else x) ≡ g x) where
  pub update_where-map : (xs : List A) → update_where p f xs ≡ map g xs
  update_where-map [] = refl
  update_where-map (x ∷ xs) = rw (same x (p x) refl, update_where-map xs) refl

contains_selected {ℓ} :
    {A : Type ℓ} (key : A → ℕ) (p : A → Bool) (a : ℕ) (xs : List A)
    → contains (map key (select_where p xs)) a ≡ any (λ x. p x && key x == a) xs
contains_selected key p a [] = refl
contains_selected key p a (x ∷ xs) = ground (arith, contains_selected key p a xs)

pub reviewed_subsystems_lem :
    (sid ss : ℕ) (db : Db) → contains (reviewed_subsystems sid db) ss ≡ is_under_review sid ss db
unfolding reviewed_subsystems subsystem_ids_at_level
reviewed_subsystems_lem sid ss db =
    contains_selected (λ r. r.subsystem_id) _ ss db.stages
    ∙ any_same
        (λ r.
          (r.session_id == sid
            && r.level == SubsystemLevel.scenarios
            && r.status == StageStatus.awaiting_decision)
          && r.subsystem_id == ss)
        (awaits_review sid ss) (λ r. ground arith) db.stages

contains-any : (ids : List ℕ) (i : ℕ) → contains ids i ≡ any (λ j. j == i) ids
contains-any [] i = refl
contains-any (j ∷ ids) i = ground (arith, contains-any ids i)

in_subset_lem : (subset : Option (List ℕ)) (i : ℕ) → in_subset subset i ≡ is_chosen subset i
in_subset_lem none i = refl
in_subset_lem (some ids) i = contains-any ids i

module _ (sid : ℕ) (good_subs : List ℕ) (subset : Option (List ℕ)) (old : Db)
    (good : (ss : ℕ) → contains good_subs ss ≡ is_under_review sid ss old) where
  mark_profiles_accepted_lem :
      (db : Db)
      → (mark_profiles_accepted sid good_subs db).profiles
        ≡ map (reviewed_profile sid old) db.profiles
  unfolding mark_profiles_accepted
  mark_profiles_accepted_lem db =
      update_where-map
        (λ r. r.session_id == sid && not r.superseded && contains good_subs r.subsystem_id)
        (λ r. record r { accepted = true }) (reviewed_profile sid old) same db.profiles
    where
      same :
          (r : ProfileRow) (b : Bool)
          → (r.session_id == sid && not r.superseded && contains good_subs r.subsystem_id) ≡ b
          → (if b then record r { accepted = true } else r) ≡ reviewed_profile sid old r
      same r true e = rw (sym (good r.subsystem_id), e) refl
      same r false e = rw (sym (good r.subsystem_id), e) refl

  mark_scenarios_accepted_lem :
      (db : Db)
      → (mark_scenarios_accepted sid good_subs subset db).outputs
        ≡ map (reviewed_output sid subset old) db.outputs
  unfolding mark_scenarios_accepted
  mark_scenarios_accepted_lem db =
      update_where-map
        (λ o.
          o.session_id == sid
          && not o.superseded
          && contains good_subs o.subsystem_id
          && in_subset subset o.output_id)
        (λ o. record o { accepted = true }) (reviewed_output sid subset old) same db.outputs
    where
      same :
          (o : OutputRow) (b : Bool)
          → (o.session_id == sid
              && not o.superseded
              && contains good_subs o.subsystem_id
              && in_subset subset o.output_id)
            ≡ b
          → (if b then record o { accepted = true } else o) ≡ reviewed_output sid subset old o
      same o true e = rw (sym (good o.subsystem_id), sym (in_subset_lem subset o.output_id), e) refl
      same o false e =
          rw (sym (good o.subsystem_id), sym (in_subset_lem subset o.output_id), e) refl

complete_session_lem :
    (now sid : ℕ) (db : Db)
    → (complete_session now sid db).sessions ≡ map (completed_row now sid) db.sessions
unfolding complete_session
complete_session_lem now sid db =
    update_where-map (is_session sid) _ (completed_row now sid) same db.sessions
  where
    same :
        (r : SessionRow) (b : Bool)
        → is_session sid r ≡ b
        → (if b
            then record r {
              session_status = SessionStatus.completed;
              current_stage = WorkflowStage.approved;
              completed_at = some now;
              updated_at = now;
            }
            else r)
          ≡ completed_row now sid r
    same r true e = rw e refl
    same r false e = rw e refl

-- The review, from one world to the next, and what it leaves alone.
pub record Approved (sid : ℕ) (subset : Option (List ℕ)) (old : Db) (w w' : World) : Type 0 where
  pub review : Reviewed sid w.now subset old w.db w'.db
  pub same_stages : w'.db.stages ≡ w.db.stages
  pub outside : SameOutside w w'

module _ (s : Settings) (py : Builtins) (uuid4 identity : ℕ → ℕ) (x : SessionRow)
    (good_subs : List ℕ) (user : Option ℕ) (subset : Option (List ℕ)) (old : Db) (w : World)
    (good : (ss : ℕ) → contains good_subs ss ≡ is_under_review x.session_id ss old) where
  marked : World
  marked = record w {
    db =
        mark_scenarios_accepted x.session_id good_subs subset
          (mark_profiles_accepted x.session_id good_subs w.db);
  }

  grown : World
  grown = promote_flagged_threats py uuid4 identity x good_subs user marked

  pub approve_lem :
      Approved x.session_id subset old w (approve s py uuid4 identity x good_subs user subset w)
  unfolding approve record_review marked grown mark_profiles_accepted mark_scenarios_accepted
      complete_session
  approve_lem =
      let (same, outside) =
        promote_flagged_threats_frame py uuid4 identity x good_subs user marked in
      record {
        review = record {
          outputs_reviewed =
              same.same_outputs
              ∙ mark_scenarios_accepted_lem x.session_id good_subs subset old good
                  (mark_profiles_accepted x.session_id good_subs w.db);
          profiles_reviewed =
              same.same_profiles
              ∙ mark_profiles_accepted_lem x.session_id good_subs subset old good w.db;
          session_completed =
              complete_session_lem grown.now x.session_id grown.db
              ∙ rw (outside.2, same.same_sessions) refl;
          same_scoped = same.same_scoped;
          same_threats = same.same_threats;
        };
        same_stages = same.same_stages;
        outside = outside;
      }
