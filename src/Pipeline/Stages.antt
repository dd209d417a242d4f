-- ===== src/Pipeline/Stages.antt =====
-- app/pipeline/tasks.py: the first two stages of a supporting system.
-- Each stage claims its cell and commits the claim before it asks the language model.
use tsg.Base.{
  ℕ, suc, String, Bool, false, not, ◌||◌, Option, none, some, List, [], ◌∷◌, ◌++◌, map, length,
  if◌then◌else◌, nat_eq, string_eq, contains,
}
use tsg.Enums.{WorkflowStage, StageStatus, SubsystemLevel, AuditEventType, SseEventType, level_eq}
use tsg.Json.{Json, Items, Fields, get, fields_of, items_of}
use tsg.Models.{Db, SessionRow, Subsystem, ProfileRow, ThreatRow, AuditDetail}
use tsg.Dal.Stages.{claim_stage, set_stage}
use tsg.Dal.Outputs.{
  Threat, supersede, supersede_by_types, supersede_by_categories, profile_generation,
  threat_generation, scoped_generation, output_generation, scoped_per_threat,
}
use tsg.Dal.Library.{active_threat_types, active_threat_categories}
use tsg.Failure.{returns, raises, failed}
use tsg.World.{World, ref_of, AuditEntry, plain_entry, commit, on_db, guid, audit}
use tsg.Pipeline.Grounding.{GroundingResult, find_threat_in_library, ensure_text}
use tsg.Pipeline.Validation.{Expected, validate_profile}
use tsg.Pipeline.Run.{Services, Prompt, Run, pure, act, read, ◌>>=◌, ◌>>◌, ask_ai, send_live_update}

-- `_WORK_LEVELS`
abbrev pub work_levels : List SubsystemLevel
work_levels = SubsystemLevel.profile ∷ SubsystemLevel.threats ∷ SubsystemLevel.scenarios ∷ []

-- The claim of a cell; the answer is whether it was won.
abbrev pub claim : Services → SessionRow → ℕ → SubsystemLevel → ℕ → ℕ → Run Bool
claim sv x ss level epoch task w =
    let (won, db') = claim_stage sv.settings w.now x.session_id ss level epoch task w.db in
    (returns won, record w { db = db' })

-- The cell is done: its status, and the event.
abbrev pub finish_stage : SessionRow → ℕ → SubsystemLevel → StageStatus → ℕ → World → World
finish_stage x ss level status epoch w =
    send_live_update x.session_id SseEventType.stage_completed ss level status epoch
      (on_db (set_stage w.now x.session_id ss level status none) w)

abbrev pub start_stage : SessionRow → ℕ → SubsystemLevel → ℕ → World → World
start_stage x ss level epoch w =
    send_live_update x.session_id SseEventType.stage_started ss level StageStatus.running epoch
      (commit w)

module _ (sv : Services) where
  open sv use {py, uuid4, settings}

  -- The row that replaces the current profile.
  abbrev pub profile_row : SessionRow → Subsystem → Json → ℕ → World → ProfileRow
  profile_row x sub profile id w = record {
    profile_id = id;
    session_id = x.session_id;
    tenant_id = x.tenant_id;
    entity_id = x.entity_id;
    subsystem_id = sub.id;
    profile = profile;
    validation = validate_profile py (fields_of profile) sub.name;
    accepted = false;
    superseded = false;
    created_at = w.now;
  }

  unfoldable pub save_profile : SessionRow → Subsystem → ℕ → Json → World → World
  save_profile x sub epoch profile w =
      let (id, w₁) = guid uuid4 w in
      finish_stage x sub.id SubsystemLevel.profile StageStatus.complete epoch (
        on_db
          (λ db. record db {
            profiles = profile_row x sub profile id w₁ ∷ supersede x.session_id sub.id db.profiles;
          })
          w₁)

  unfoldable pub profile_work : SessionRow → Subsystem → ℕ → Run (Option Json)
  profile_work x sub epoch = do
    act (start_stage x sub.id SubsystemLevel.profile epoch)
    profile ← ask_ai sv x sub.id "profile" Expected.dict (Prompt.profile x.asset_name sub)
    act (save_profile x sub epoch profile)
    pure (some profile)

  -- `write_profile`: `none` where the claim is lost.
  unfoldable pub write_profile : SessionRow → Subsystem → ℕ → ℕ → Run (Option Json)
  write_profile x sub task epoch = do
    won ← claim sv x sub.id SubsystemLevel.profile epoch task
    if won then profile_work x sub epoch else pure none

  -- `ThreatActorsJSON`, and the columns of one proposal with its verdict.
  abbrev pub threat_row :
      SessionRow → ℕ → String → String → Option String → GroundingResult → ℕ → World → ThreatRow
  threat_row x ss category type name g id w = record {
    threat_id = id;
    session_id = x.session_id;
    tenant_id = x.tenant_id;
    subsystem_id = ss;
    threat_category = category;
    threat_type = type;
    threat_name = name;
    actors = g.actors;
    actors_validated = g.actors_validated;
    library_threat_type = g.library_type;
    library_threat_name = g.library_name;
    threat_type_id = g.type_id;
    threat_catalogue_id = g.catalogue_id;
    grounding_status = g.status;
    grounding_score = some g.score;
    superseded = false;
    created_at = w.now;
  }

  abbrev pub threat_of_result : ℕ → String → Option String → GroundingResult → Threat
  threat_of_result id type name g = record {
    threat_id = id;
    grounding_status = g.status;
    threat_type = type;
    threat_name = name;
    library_threat_type = g.library_type;
    library_threat_name = g.library_name;
    threat_type_id = g.type_id;
  }

  abbrev pub insert_threat : ThreatRow → World → World
  insert_threat row w = on_db (λ db. record db { threats = row ∷ db.threats }) w

  abbrev pub name_field : Fields → Option String
  name_field p = elim (get p "name") [ some (Json.str t) ↦ some t | _ ↦ none ]

  -- The post-filter: a set of lower-case names, which filters nothing if it is empty.
  unfoldable pub out_of_scope : List String → String → Bool
  out_of_scope [] text = false
  out_of_scope (n ∷ ns) text = not (contains (map py.lower (n ∷ ns)) (py.folded text))

  -- One proposal: `none` where it is rejected, a `failed` where it is no dict.
  unfoldable pub place_proposal :
      SessionRow → ℕ → List String → List String → Json → Run (Option Threat)
  place_proposal x ss types categories (Json.obj p) w =
      let type = ensure_text (get p "type") "" in
      let category = ensure_text (get p "category") "" in
      let name = name_field p in
      if out_of_scope types type || out_of_scope categories category
      then (returns none, w)
      else elim (find_threat_in_library py settings sv.models w.db x.sector_ids p) [
        | raises e ↦ (raises e, w)
        | returns g ↦
            let (id, w₁) = guid uuid4 w in
            (
              returns (some (threat_of_result id type name g)),
              insert_threat (threat_row x ss category type name g id w₁) w₁,
            )
      ]
  place_proposal x ss types categories _ w = (raises failed, w)

  abbrev pub tally : Option Threat → List Threat × ℕ → List Threat × ℕ
  tally none (threats, rejected) = (threats, suc rejected)
  tally (some t) (threats, rejected) = (threats ++ t ∷ [], rejected)

  unfoldable pub place_proposals :
      SessionRow → ℕ → List String → List String → Items → List Threat × ℕ → Run (List Threat × ℕ)
  place_proposals x ss types categories Items.nil acc = pure acc
  place_proposals x ss types categories (Items.cons j rest) acc = do
    placed ← place_proposal x ss types categories j
    place_proposals x ss types categories rest (tally placed acc)

  -- The rows that make room for the new threats.
  unfoldable pub retire_threats : SessionRow → ℕ → List ℕ → List ℕ → Db → Db
  retire_threats x ss [] [] db = record db { threats = supersede x.session_id ss db.threats }
  retire_threats x ss (t ∷ ts) category_ids db = record db {
    threats = supersede_by_types x.session_id ss (t ∷ ts) db.threats;
  }
  retire_threats x ss [] (c ∷ cs) db = record db {
    threats = supersede_by_categories x.session_id ss (c ∷ cs) db.threat_types db.threats;
  }

  abbrev pub type_names : List ℕ → Db → List String
  type_names type_ids db = map (λ r. r.threat_type_name) (active_threat_types type_ids db)

  -- Categories are looked up only where no types are given.
  abbrev pub category_names : List ℕ → List ℕ → Db → List String
  category_names (t ∷ ts) category_ids db = []
  category_names [] category_ids db =
      map (λ r. r.threat_category_name) (active_threat_categories category_ids db)

  abbrev grounding_entry : ℕ → ℕ → ℕ → AuditEntry
  grounding_entry ss count rejected = record (plain_entry AuditEventType.grounding_summary) {
    stage = some WorkflowStage.threat_identification;
    subsystem_id = some ss;
    detail = AuditDetail.threat_counts count rejected;
  }

  -- `set_stage`, the audit row, then the event.
  unfoldable pub close_threats : SessionRow → ℕ → ℕ → List Threat × ℕ → World → World
  close_threats x ss epoch (threats, rejected) w =
      send_live_update x.session_id SseEventType.stage_completed ss SubsystemLevel.threats
        StageStatus.complete epoch
        (audit uuid4 (ref_of x) (grounding_entry ss (length threats) rejected) (
          on_db (set_stage w.now x.session_id ss SubsystemLevel.threats StageStatus.complete none)
            w))

  unfoldable pub threats_work :
      SessionRow → Subsystem → Fields → ℕ → List ℕ → List ℕ → Run (List Threat)
  threats_work x sub profile epoch type_ids category_ids = do
    act (start_stage x sub.id SubsystemLevel.threats epoch)
    types ← read (λ w. type_names type_ids w.db)
    categories ← read (λ w. category_names type_ids category_ids w.db)
    proposals ←
        ask_ai sv x sub.id "threats" Expected.list
          (Prompt.threats x.asset_name sub profile types categories)
    act (on_db (retire_threats x sub.id type_ids category_ids))
    found ← place_proposals x sub.id types categories (items_of proposals) ([], 0)
    act (close_threats x sub.id epoch found)
    pure found.0

  -- `find_threats`, with the names that the prompt lists (sorted there) in any order; `[]` for `only_type_ids` or `only_category_ids` is None.
  unfoldable pub find_threats :
      SessionRow → Subsystem → Fields → ℕ → ℕ → List ℕ → List ℕ → Run (List Threat)
  find_threats x sub profile task epoch type_ids category_ids = do
    won ← claim sv x sub.id SubsystemLevel.threats epoch task
    if won then threats_work x sub profile epoch type_ids category_ids else pure []
