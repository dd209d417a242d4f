-- ===== src/Dal/Settings.antt =====
-- The settings of app/core/config.py that the modelled code reads.
use tsg.Base.{ℕ, Option}
use tsg.Base.Number.{ℤ}

pub record Settings : Type 0 where
  pub tenant_id : ℕ
  pub max_active_sessions : ℕ
  pub stage_lease_seconds : ℕ
  pub stage_max_attempts : ℕ
  pub scoping_score_threshold : Option ℤ
  pub scoping_top_n : Option ℕ
  pub semantic_match_threshold : ℤ
  pub grounding_confirm_threshold : ℤ
  pub grounding_grounded_threshold : ℤ
  pub grounding_shortlist_k : ℕ
