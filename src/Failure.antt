-- ===== src/Failure.antt =====
-- A step that may raise. The pipeline tells apart an unreadable reply of the language model, which it
-- may show to the client, from every other exception.
use tsg.Base.{String}

-- `LLMResponseParseError(stage, expected_type)`, or any other exception.
pub data Failure : Type 0 where
  unreadable : String → String → Failure
  failed : Failure

pub data Attempt (A : Type 0) : Type 0 where
  returns : A → Attempt A
  raises : Failure → Attempt A

infixl 5 ◌>>=◌
abbrev pub ◌>>=◌ : {A B : Type 0} → Attempt A → (A → Attempt B) → Attempt B
returns a >>= f = f a
raises e >>= f = raises e
