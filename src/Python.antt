-- ===== src/Python.antt =====
-- The functions of Python and of the database server on texts that the program calls. They work on
-- Unicode tables and decimal notation, so they are parameters, and no law of theirs is assumed.
use tsg.Base.{String, Bool, Option}
use tsg.Base.Number.{ℤ}
use tsg.Json.{Json}

-- `float(text)` (`none` for a ValueError), `str(value)`, `text.strip().lower()`, `text.lower()`,
-- SQL's `LOWER(column)`, `needle in text`, `text.strip()`, and `json.loads(text)` (`none` where it
-- raises).
pub record Builtins : Type 0 where
  pub float_of : String → Option ℤ
  pub str_of : Json → String
  pub folded : String → String
  pub lower : String → String
  pub sql_lower : String → String
  pub occurs_in : String → String → Bool
  pub strip : String → String
  pub loads : String → Option Json
