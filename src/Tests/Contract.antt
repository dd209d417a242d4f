-- ===== src/Tests/Contract.antt =====
-- What a consumer reads, on a session with one accepted scenario.
use mathlib.Core.List.{Memᴰ}
use tsg.Base.{refl, true, false, none, some, [], ◌∷◌, All}
use tsg.Base.Number.{pos}
use tsg.Enums.{GroundingStatus, ScenarioStatus}
use tsg.Json.{Json, Fields}
use tsg.Models.{Db, ThreatRow, ScopedRow, OutputRow, Reason}
use tsg.Dal.Contract.Scenarios.{
  IsReviewed, contract_row, accepted_scenarios, accepted_scenarios-All,
}
use tsg.Dal.Contract.Complete.{accepted_scenarios_complete}
use tsg.Tests.Data.{db_of}

abbrev pub threat_row : ThreatRow
threat_row = record {
  threat_id = 900;
  session_id = 1;
  tenant_id = 1;
  subsystem_id = 7;
  threat_category = "";
  threat_type = "malware";
  threat_name = none;
  actors = [];
  actors_validated = true;
  library_threat_type = some "malware";
  library_threat_name = some "worm";
  threat_type_id = some 5;
  threat_catalogue_id = some 9;
  grounding_status = GroundingStatus.grounded;
  grounding_score = some (pos 80);
  superseded = false;
  created_at = 100;
}

abbrev pub scoped_row : ScopedRow
scoped_row = record {
  scoped_threat_id = 901;
  session_id = 1;
  tenant_id = 1;
  subsystem_id = 7;
  threat_id = 900;
  score = pos 80;
  scope_rank = 1;
  selected = true;
  reason = Reason.grounding GroundingStatus.grounded;
  factors = [];
  superseded = false;
  created_at = 100;
}

abbrev pub output_row : OutputRow
output_row = record {
  output_id = 902;
  session_id = 1;
  tenant_id = 1;
  subsystem_id = 7;
  scoped_threat_id = 901;
  status = ScenarioStatus.complete;
  scenario = Json.obj Fields.end;
  validation = record { errors = []; assumptions = []; excluded_details = [] };
  accepted = true;
  superseded = false;
  identity_hash = (1, 901);
  generation_epoch = 1;
  created_at = 100;
}

abbrev reviewed : Db
reviewed = record (db_of [] []) {
  threats = threat_row ∷ [];
  scoped = scoped_row ∷ [];
  outputs = output_row ∷ [];
}

accepted_scenarios-All_example : All (IsReviewed 1 reviewed.outputs) (accepted_scenarios 1 reviewed)
accepted_scenarios-All_example = accepted_scenarios-All 1 reviewed

accepted_scenarios_complete_example :
    Memᴰ (contract_row output_row threat_row) (accepted_scenarios 1 reviewed)
accepted_scenarios_complete_example =
    accepted_scenarios_complete 1 reviewed output_row scoped_row threat_row (Memᴰ.head refl)
      (Memᴰ.head refl) (Memᴰ.head refl) refl refl refl
