-- ===== src/Persist/Logs.antt =====
-- `get_json` and `load_json` of log services.
use cmm_sdk.Common.{ℕ, ◌<◌, ◌≡◌, refl, Bool, true, false, Option, some, List, [], ◌∷◌, ◌++◌}
use cmm_sdk.Common.Text.{Text, codes, text_eq}
use cmm_sdk.Persist.{Node, Fields, Hop, Steps, Library, IsLawful, make, perform, fields, ◌▸◌}
use cmm_sdk.Persist.Reads.{run, last_node, follow_node, node_at, last_field, texts_of, Fits}
use cmm_sdk.Persist.Correct.{perform-make}
use cmm_sdk.Persist.Base.{
  Resource, resource_json, load_resource, atoi8-to_string, link, Status, status_json, load_status,
  strings, items, texts_of-strings, items_by-items, Actions, action_info,
}

pub record SyslogFilter : Type 0 where
  pub log_facilities : List Text
  pub lowest_severity : Text

abbrev pub new_filter : SyslogFilter
new_filter = record { log_facilities = []; lowest_severity = [] }

pub record LogService : Type 0 where
  pub base : Resource
  pub id : Text
  pub description : Text
  pub datetime : Text
  pub datetime_local_offset : Text
  pub max_number_of_records : ℕ
  pub log_entry_type : Text
  pub overwrite_policy : Text
  pub service_enabled : Bool
  pub status : Status
  pub syslog_filters : List SyslogFilter
  pub entry : Option Text
  pub actions : List Actions
  pub record_count : ℕ

unfoldable pub filter_json : SyslogFilter → Node
filter_json r = Node.object (
    fields
      ((codes "LogFacilities", Node.array (strings r.log_facilities))
        ∷ (codes "LowestSeverity", Node.string r.lowest_severity)
        ∷ [])
      Fields.end)

-- `LogService::get_json`
unfoldable pub log_service_json : LogService → Node
log_service_json r = Node.object (
    resource_json r.base (
      fields
        ((codes "Id", Node.string r.id)
          ∷ (codes "Description", Node.string r.description)
          ∷ (codes "DateTime", Node.string r.datetime)
          ∷ (codes "DateTimeLocalOffset", Node.string r.datetime_local_offset)
          ∷ (codes "MaxNumberOfRecords", Node.number r.max_number_of_records)
          ∷ (codes "LogEntryType", Node.string r.log_entry_type)
          ∷ (codes "OverWritePolicy", Node.string r.overwrite_policy)
          ∷ (codes "ServiceEnabled", Node.boolean r.service_enabled)
          ∷ (codes "SyslogFilters", Node.array (items filter_json r.syslog_filters))
          ∷ (codes "Status", status_json r.status)
          ∷ (codes "Entries", link r.entry)
          ∷ (codes "Actions", action_info r.actions)
          ∷ [])
        Fields.end))

unfoldable pub load_filter : Steps SyslogFilter
load_filter =
    Steps.read_strings false (Hop.get_key (codes "LogFacilities") ∷ [])
      (λ r ts. record r { log_facilities = r.log_facilities ++ ts })
    ▸ Steps.read_string [] (Hop.get_key (codes "LowestSeverity"))
        (λ r t. record r { lowest_severity = t })
    ▸ Steps.done

-- `LogService::load_json`
unfoldable pub load_log_service : Steps LogService
load_log_service =
    Steps.inherit (λ r. r.base) (λ r b. record r { base = b }) load_resource
    ▸ Steps.read_string [] (Hop.at_key (codes "Id")) (λ r t. record r { id = t })
    ▸ Steps.read_string [] (Hop.at_key (codes "Description")) (λ r t. record r { description = t })
    ▸ Steps.read_string [] (Hop.at_key (codes "DateTime")) (λ r t. record r { datetime = t })
    ▸ Steps.read_string [] (Hop.at_key (codes "DateTimeLocalOffset"))
        (λ r t. record r { datetime_local_offset = t })
    ▸ Steps.read_number [] (Hop.at_key (codes "MaxNumberOfRecords"))
        (λ r n. record r { max_number_of_records = n })
    ▸ Steps.read_string [] (Hop.at_key (codes "LogEntryType"))
        (λ r t. record r { log_entry_type = t })
    ▸ Steps.read_string [] (Hop.at_key (codes "OverWritePolicy"))
        (λ r t. record r { overwrite_policy = t })
    ▸ Steps.read_bool [] (Hop.at_key (codes "ServiceEnabled"))
        (λ r b. record r { service_enabled = b })
    ▸ Steps.read_items false (Hop.get_key (codes "SyslogFilters") ∷ []) new_filter load_filter
        (λ r ts. record r { syslog_filters = r.syslog_filters ++ ts })
    ▸ Steps.inner (Hop.at_key (codes "Status")) (λ r. r.status) (λ r x. record r { status = x })
        load_status
    ▸ Steps.done

run-filter_json : (f : SyslogFilter) → run load_filter (filter_json f) new_filter ≡ some f
unfolding run load_resource resource_json last_node follow_node node_at last_field text_eq
    status_json load_status texts_of strings load_filter filter_json
run-filter_json f = rw (texts_of-strings f.log_facilities, run) refl

run-log_service_json :
    (s fresh : LogService)
    → s.base.type < 256
    → run load_log_service (log_service_json s) (record fresh { syslog_filters = [] })
      ≡ some (record s {
        entry = fresh.entry;
        actions = fresh.actions;
        record_count = fresh.record_count;
      })
unfolding run load_resource resource_json last_node follow_node node_at last_field text_eq
    status_json load_status texts_of strings load_log_service log_service_json
run-log_service_json s fresh h =
    rw
      (
        items_by-items filter_json (λ m. run load_filter m new_filter) s.syslog_filters
            run-filter_json,
        run,
      )
      (rw (atoi8-to_string s.base.type h, run) refl)

-- A saved log service is loaded as it was, but for the pointer to its entries, the actions and the number of records.
pub perform-log_service_json :
    (L : Library) (law : IsLawful L) (s fresh : LogService)
    → s.base.type < 256
    → Fits (log_service_json s)
    → perform L load_log_service
        (make L (log_service_json s))
        (record fresh { syslog_filters = [] })
      ≡ (
        true,
        (record s {
          entry = fresh.entry;
          actions = fresh.actions;
          record_count = fresh.record_count;
        }),
      )
perform-log_service_json L law s fresh h fits =
    perform-make L law load_log_service (log_service_json s) (record fresh { syslog_filters = [] })
      (record s { entry = fresh.entry; actions = fresh.actions; record_count = fresh.record_count })
      fits (run-log_service_json s fresh h)
