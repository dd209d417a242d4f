-- ===== src/Pipeline/Run.antt =====
-- How a stage of app/pipeline/tasks.py runs: on a world, with an outcome that may be an exception.
-- What was written before an exception stays written, until somebody rolls back.
use tsg.Base.{ℕ, suc, String, Bool, true, false, Option, none, some, List, ◌∷◌}
use tsg.Enums.{StageStatus, SubsystemLevel, SseEventType}
use tsg.Json.{Json, Fields}
use tsg.Python.{Builtins}
use tsg.Models.{SessionRow, Subsystem, PromptLogRow}
use tsg.Dal.Settings.{Settings}
use tsg.Failure.{Failure, Attempt, returns, raises, unreadable, failed}
use tsg.World.{World, commit, rollback, on_db, publish, guid}
use tsg.Pipeline.Grounding.{Models}
use tsg.Pipeline.Validation.{Expected, parse_json}

-- A prompt of app/pipeline/prompts.py, by the arguments of its builder.
pub data Prompt : Type 0 where
  profile : String → Subsystem → Prompt
  threats : String → Subsystem → Fields → List String → List String → Prompt
  scenario : String → Subsystem → Option String → Option String → Prompt

-- What a stage is given: the settings, Python's functions on texts, the ids of `uuid4` in the order
-- in which they are drawn, the language model (its answer to a prompt may differ from call to call;
-- `none` where the client raises), and the embedding and rerank models.
pub record Services : Type 0 where
  pub settings : Settings
  pub py : Builtins
  pub uuid4 : ℕ → ℕ
  pub chat : ℕ → Prompt → Option String
  pub models : Models

abbrev pub Run : Type 0 → Type 0
Run A = World → Attempt A × World

abbrev pub pure : {A : Type 0} → A → Run A
pure a w = (returns a, w)

abbrev pub raise : {A : Type 0} → Failure → Run A
raise e w = (raises e, w)

-- A step that cannot raise, and a read.
abbrev pub act : (World → World) → Run (Unit {0})
act f w = (returns tt, f w)

abbrev pub read : {A : Type 0} → (World → A) → Run A
read f w = (returns (f w), w)

abbrev pub carry_on : {A B : Type 0} → (A → Run B) → Attempt A × World → Attempt B × World
carry_on f (returns a, w) = f a w
carry_on f (raises e, w) = (raises e, w)

infixl 5 ◌>>=◌ ◌>>◌
abbrev pub ◌>>=◌ : {A B : Type 0} → Run A → (A → Run B) → Run B
◌>>=◌ m f w = carry_on f (m w)

abbrev pub ◌>>◌ : {B : Type 0} → Run (Unit {0}) → Run B → Run B
m >> k = m >>= λ _. k

-- `_send_live_update`
abbrev pub send_live_update :
    ℕ → SseEventType → ℕ → SubsystemLevel → StageStatus → ℕ → World → World
send_live_update sid event_type ss level status epoch w =
    publish
      (record {
        event_type = event_type;
        session_id = sid;
        subsystem_id = some ss;
        subsystem_index = none;
        stage = some level;
        status = some status;
        epoch = some epoch;
        message = none;
        at = w.now;
      })
      w

module _ (sv : Services) where
  abbrev pub log_row : SessionRow → ℕ → String → String → Bool → ℕ → World → PromptLogRow
  log_row x ss stage text ok id w = record {
    log_id = id;
    session_id = x.session_id;
    subsystem_id = ss;
    stage = stage;
    response_text = text;
    parse_succeeded = ok;
    created_at = w.now;
  }

  abbrev pub insert_log : PromptLogRow → World → World
  insert_log row w = on_db (λ db. record db { prompt_log = row ∷ db.prompt_log }) w

  -- `expected_type.__name__`
  abbrev type_name : Expected → String
  type_name Expected.dict = "dict"
  type_name Expected.list = "list"

  -- The reply, parsed: the log row of an unreadable one survives the stage's rollback.
  abbrev pub settle : SessionRow → ℕ → String → Expected → String → Option Json → Run Json
  settle x ss stage expected text none w =
      let (id, w₁) = guid sv.uuid4 w in
      (
        raises (unreadable stage (type_name expected)),
        commit (insert_log (log_row x ss stage text false id w₁) (rollback w₁)),
      )
  settle x ss stage expected text (some j) w =
      let (id, w₁) = guid sv.uuid4 w in
      (returns j, insert_log (log_row x ss stage text true id w₁) w₁)

  abbrev pub hear : SessionRow → ℕ → String → Expected → Option String → Run Json
  hear x ss stage expected none = raise failed
  hear x ss stage expected (some text) =
      settle x ss stage expected text (parse_json sv.py expected text)

  -- `_ask_ai`
  unfoldable pub ask_ai : SessionRow → ℕ → String → Expected → Prompt → Run Json
  ask_ai x ss stage expected prompt w =
      hear x ss stage expected (sv.chat w.asked prompt) (record w { asked = suc w.asked })
