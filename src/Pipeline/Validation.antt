-- ===== src/Pipeline/Validation.antt =====
-- app/pipeline/validation.py: the parsing of the language model's replies, and the checks that flag
-- a profile or a scenario for the reviewer.
use Prim.Native.Char.{Char, code}
use tsg.Base.{
  String, Bool, true, false, not, ◌&&◌, ◌||◌, Option, none, some, List, [], ◌∷◌, ◌++◌, ◌==◌,
  if◌then◌else◌, nat_beq, string_eq,
}
use tsg.Json.{Json, Fields, get, truthy}
use tsg.Python.{Builtins}
use tsg.Models.{Flaw, Validation}
use tsg.Pipeline.Grounding.{ensure_actor_list}

-- The `expected_type` of a reply.
pub data Expected : Type 0 where
  dict list : Expected

abbrev is_tick : Char → Bool
is_tick c = nat_beq (code c) b'`'

-- `t.strip("`")`
lstrip_ticks : String → String
lstrip_ticks String.[] = String.[]
lstrip_ticks (String.◌∷◌ c t) = if is_tick c then lstrip_ticks t else String.◌∷◌ c t

rstrip_ticks : String → String
rstrip_ticks String.[] = String.[]
rstrip_ticks (String.◌∷◌ c t) =
    let rest = rstrip_ticks t in if is_tick c && rest == "" then String.[] else String.◌∷◌ c rest

-- The text from the first brace of either kind; `none` where there is no brace.
from_brace : String → Option String
from_brace String.[] = none
from_brace (String.◌∷◌ c t) =
    if nat_beq (code c) b'{' || nat_beq (code c) b'[' then some (String.◌∷◌ c t) else from_brace t

is_fenced : String → Bool
is_fenced (String.◌∷◌ a (String.◌∷◌ b (String.◌∷◌ c t))) = is_tick a && is_tick b && is_tick c
is_fenced _ = false

abbrev or_whole : Option String → String → String
or_whole none t = t
or_whole (some u) t = u

unfence : String → String
unfolding lstrip_ticks rstrip_ticks from_brace is_fenced
unfence t =
    let bare = rstrip_ticks (lstrip_ticks t) in
    if is_fenced t then or_whole (from_brace bare) bare else t

abbrev is_expected : Expected → Json → Bool
is_expected Expected.dict (Json.obj fs) = true
is_expected Expected.list (Json.arr xs) = true
is_expected _ _ = false

-- `a or b` on texts that may be None, and `a or ""`.
abbrev pub or_text : Option String → Option String → Option String
or_text none b = b
or_text (some a) b = if a == "" then b else some a

abbrev pub or_blank : Option String → String
or_blank none = ""
or_blank (some a) = a

module _ (py : Builtins) where
  -- `none` stands for an `LLMResponseParseError`.
  unfoldable pub parse_json : Expected → String → Option Json
  unfolding unfence
  parse_json expected text = elim (py.loads (unfence (py.strip text))) [
    | none ↦ none
    | some j ↦ (if is_expected expected j then some j else none)
  ]

  -- `str(obj.get(f) or "")`
  abbrev text_or_blank : Option Json → String
  text_or_blank none = ""
  text_or_blank (some (Json.str t)) = t
  text_or_blank (some j) = if truthy j then py.str_of j else ""

  unfoldable pub check_fields : Fields → List String → List Flaw
  check_fields obj [] = []
  check_fields obj (f ∷ fs) =
      if py.strip (text_or_blank (get obj f)) == ""
      then Flaw.missing f ∷ check_fields obj fs
      else check_fields obj fs

  -- `text and needle and needle.lower() not in text.lower()`
  abbrev misses : String → String → Bool
  misses needle text =
      not (text == "") && not (needle == "") && not (py.occurs_in (py.lower needle) (py.lower text))

  -- `_normalize_str_list` does to any field what grounding does to the actors.
  unfoldable pub validate_profile : Fields → String → Validation
  unfolding check_fields ensure_actor_list
  validate_profile profile sub_name = record {
    errors =
        check_fields profile ("subsystem_name" ∷ "summary" ∷ [])
        ++ (if misses sub_name (text_or_blank (get profile "summary"))
            then Flaw.unreferenced ∷ []
            else []);
    assumptions = ensure_actor_list (get profile "assumptions");
    excluded_details = [];
  }

  unfoldable pub validate_scenario : Fields → Option String → Option String → Validation
  unfolding check_fields ensure_actor_list
  validate_scenario scenario threat_type threat_name = record {
    errors =
        check_fields scenario
          ("scenario_title" ∷ "scenario_statement" ∷ "business_impact" ∷ "operational_impact" ∷ [])
        ++ (if misses (or_blank (or_text threat_name threat_type))
              (text_or_blank (get scenario "scenario_statement"))
            then Flaw.unreferenced ∷ []
            else []);
    assumptions = ensure_actor_list (get scenario "assumptions");
    excluded_details = ensure_actor_list (get scenario "excluded_details");
  }
