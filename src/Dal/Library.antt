-- ===== src/Dal/Library.antt =====
-- app/db/dal.py: reads of the threat library, as the scoping rules and a regeneration take them.
use tsg.Base.{ℕ, Bool, not, ◌&&◌, List, [], ◌∷◌, nat_eq, contains, select_where}
use tsg.Base.Sort.{order_by}
use tsg.Models.{Db, ThreatTypeRow, ThreatCategoryRow, ThreatRuleRow}

abbrev pub is_rule_of : List ℕ → ThreatRuleRow → Bool
is_rule_of type_ids r = contains type_ids r.threat_type_id && r.is_active && not r.is_deleted

unfoldable pub active_threat_rules : List ℕ → Db → List ThreatRuleRow
unfolding order_by
active_threat_rules [] db = []
active_threat_rules (x ∷ xs) db =
    order_by (λ r. r.threat_rule_id) (select_where (is_rule_of (x ∷ xs)) db.threat_rules)

unfoldable pub active_threat_types : List ℕ → Db → List ThreatTypeRow
active_threat_types [] db = []
active_threat_types (x ∷ xs) db =
    select_where (λ r. contains (x ∷ xs) r.threat_type_id && r.is_active && not r.is_deleted)
      db.threat_types

unfoldable pub active_threat_categories : List ℕ → Db → List ThreatCategoryRow
active_threat_categories [] db = []
active_threat_categories (x ∷ xs) db =
    select_where (λ r. contains (x ∷ xs) r.threat_category_id && r.is_active && not r.is_deleted)
      db.threat_categories
