-- ===== src/Log.antt =====
-- The log service: `generate_log` and `make_log` of src/logservice.cpp, both overloads, and
-- `generate_sel` of src/eventservice.cpp.
pub mod Counts
pub mod Growth
pub mod Runs
use cmm_sdk.Common.{
  ℕ, suc, ◌+◌, ◌%◌, Bool, true, false, Option, none, some, List, [], ◌∷◌, ◌++◌, leb, if◌then◌else◌,
}
use cmm_sdk.Common.Text.{Text, codes, text_eq}
use cmm_sdk.Common.Decimal.{to_string}
use cmm_sdk.Util.Names.{get_parent_object_uri}
use cmm_sdk.Redfish.Event.{Message, EventInfo}

pub record Sel : Type 0 where
  pub sensor_number : ℕ
  pub entry_code : Text
  pub sensor_type : Text
  pub message : Message
  pub event_timestamp : Text
  pub event_type : Text

unfoldable pub generate_sel : ℕ → Text → Text → Text → Text → Text → Text → Sel
generate_sel sensor_num code sensor_type msg severity time event_type = record {
  sensor_number = sensor_num;
  entry_code = code;
  sensor_type = sensor_type;
  message = record {
    id = [];
    message = msg;
    severity = severity;
    message_args = [];
    resolution = [];
  };
  event_timestamp = time;
  event_type = event_type;
}

-- The time of creation is left out.
pub record LogEntry : Type 0 where
  pub odata_id : Text
  pub id : Text
  pub entry_type : Text
  pub severity : Text
  pub message : Message
  pub sensor_number : ℕ
  pub sensor_type : Text
  pub entry_code : Text
  pub event_id : Text
  pub event_timestamp : Text
  pub event_type : Text

unfoldable pub make_log : EventInfo → Text → Text → LogEntry
make_log ev odata_id id = record {
  odata_id = odata_id;
  id = id;
  entry_type = codes "Event";
  severity = ev.message.severity;
  message = ev.message;
  sensor_number = 0;
  sensor_type = [];
  entry_code = [];
  event_id = ev.event_id;
  event_timestamp = ev.event_timestamp;
  event_type = ev.event_type;
}

unfoldable pub make_log_of_sel : Sel → Text → Text → LogEntry
make_log_of_sel sel odata_id id = record {
  odata_id = odata_id;
  id = id;
  entry_type = codes "SEL";
  severity = sel.message.severity;
  message = sel.message;
  sensor_number = sel.sensor_number;
  sensor_type = sel.sensor_type;
  entry_code = sel.entry_code;
  event_id = [];
  event_timestamp = sel.event_timestamp;
  event_type = sel.event_type;
}

-- The fields that logging does not touch are left out: description, times, status, filters and
-- actions.
pub record LogService : Type 0 where
  pub odata_id : Text
  pub id : Text
  pub max_number_of_records : ℕ
  pub log_entry_type : Text
  pub overwrite_policy : Text
  pub service_enabled : Bool
  pub record_count : ℕ

-- `g_record` by the class of what it points to. An entry that the table no longer has stays in its
-- collection.
pub record Logs : Type 0 where
  pub services : Text → Option LogService
  pub service_collections : Text → Option (List Text)
  pub entry_collections : Text → Option (List LogEntry)
  pub entries : Text → Option LogEntry
  -- The URIs whose files were written.
  pub saved : List Text

unfoldable pub set_key {ℓ} : {A : Type ℓ} → (Text → Option A) → Text → A → Text → Option A
set_key f k v key = if text_eq k key then some v else f key

-- `ODATA_CHASSIS_ID`, `ODATA_SYSTEM_ID`, `ODATA_MANAGER_ID`; another position gives the empty text.
unfoldable pub position_uri : Text → Text
position_uri position =
    if text_eq position (codes "Chassis")
    then codes "/redfish/v1/Chassis"
    else if text_eq position (codes "System")
    then codes "/redfish/v1/Systems"
    else if text_eq position (codes "Manager")
    then codes "/redfish/v1/Managers"
    else []

unfoldable pub service_uri : Text → Text → Text
service_uri position facility =
    position_uri position ++ (codes "/CMM1" ++ (codes "/LogServices/" ++ facility))

unfoldable pub new_service : Text → Text → Text → LogService
new_service policy odata facility = record {
  odata_id = odata;
  id = facility;
  max_number_of_records = 1000;
  log_entry_type = codes "Multiple";
  overwrite_policy = policy;
  service_enabled = true;
  record_count = 0;
}

-- `if(!record_is_exist(odata)) { … }`; `none`: there is no collection of log services.
unfoldable pub open_service : Text → Text → Text → Logs → Option (LogService × Logs)
open_service policy odata facility s = elim (s.services odata) [
  | some svc ↦ some (svc, s)
  | none ↦ elim (s.service_collections (get_parent_object_uri odata (codes "/"))) [
    | none ↦ none
    | some members ↦ some (
      new_service policy odata facility,
      record s {
        services = set_key s.services odata (new_service policy odata facility);
        service_collections =
            set_key s.service_collections (get_parent_object_uri odata (codes "/"))
              (members ++ odata ∷ []);
        saved = s.saved ++ odata ∷ get_parent_object_uri odata (codes "/") ∷ [];
      },
    )
  ]
]

-- `if(!record_is_exist(entry_odata)) { … }`
unfoldable pub open_entries : Text → Logs → List LogEntry × Logs
open_entries uri s = elim (s.entry_collections uri) [
  | some members ↦ (members, s)
  | none ↦ (
    [],
    record s {
      entry_collections = set_key s.entry_collections uri [];
      saved = s.saved ++ uri ∷ [];
    },
  )
]

-- The check of the maximum: the count to go on from, or `none` if the entry is discarded.
unfoldable pub count_from : LogService → Option ℕ
count_from svc =
    if leb svc.max_number_of_records svc.record_count
    then if text_eq svc.overwrite_policy (codes "WrapsWhenFull")
      then some 0
      else if text_eq svc.overwrite_policy (codes "NeverOverWrites")
      then none
      else none
    else some svc.record_count

-- `record_count + 1` of an `unsigned int`
unfoldable pub next_count : ℕ → ℕ
next_count c = (c + 1) % 4294967296

unfoldable pub add_entry : Text → Text → LogService → List LogEntry → ℕ → LogEntry → Logs → Logs
add_entry odata uri svc members num entry s = record s {
  services = set_key s.services odata (record svc { record_count = num });
  entry_collections = set_key s.entry_collections uri (members ++ entry ∷ []);
  entries = set_key s.entries entry.odata_id entry;
  saved = s.saved ++ entry.odata_id ∷ uri ∷ [];
}

unfoldable pub entries_uri : LogService → Text
entries_uri svc = svc.odata_id ++ codes "/Entries"

unfoldable pub numbered : (Text → Text → LogEntry) → Text → ℕ → LogEntry
numbered make uri num = make (uri ++ (codes "/" ++ to_string num)) (to_string num)

-- All that follows the first `if`, for the service that `g_record` then has.
unfoldable pub write_entry : (Text → Text → LogEntry) → Text → LogService → Logs → Logs
write_entry make odata svc s =
    let (members, s2) = open_entries (entries_uri svc) s in
    elim (count_from svc) [
      | none ↦ s2
      | some c ↦
          let num = next_count c in
          add_entry odata (entries_uri svc) svc members num (numbered make (entries_uri svc) num) s2
    ]

-- What both overloads do, for the policy that they give to a new service and the entry they make.
unfoldable pub generate_entry : Text → (Text → Text → LogEntry) → Text → Text → Logs → Option Logs
generate_entry policy make odata facility s = elim (open_service policy odata facility s) [
  | none ↦ none
  | some (svc, s1) ↦ some (write_entry make odata svc s1)
]

unfoldable pub generate_log : Text → Text → EventInfo → Logs → Option Logs
generate_log position facility ev s =
    generate_entry (codes "NeverOverWrites") (make_log ev) (service_uri position facility) facility
      s

unfoldable pub generate_log_of_sel : Text → Text → Sel → Logs → Option Logs
generate_log_of_sel position facility sel s =
    generate_entry (codes "WrapsWhenFull") (make_log_of_sel sel) (service_uri position facility)
      facility s
