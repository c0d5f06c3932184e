-- ===== src/Persist/Entries.antt =====
-- `get_json` and `load_json` of log entries.
use cmm_sdk.Common.{ℕ, ◌<◌, ◌≡◌, refl, true, false, some, List, [], ◌∷◌, ◌++◌}
use cmm_sdk.Common.Text.{Text, codes, text_eq}
use cmm_sdk.Persist.{Node, Fields, Hop, Steps, Library, IsLawful, make, perform, fields, ◌▸◌}
use cmm_sdk.Persist.Reads.{run, last_node, follow_node, node_at, last_field, texts_of, Fits}
use cmm_sdk.Persist.Correct.{perform-make}
use cmm_sdk.Persist.Base.{
  Resource, resource_json, load_resource, atoi8-to_string, status_json, load_status, strings,
  texts_of-strings,
}

pub record Message : Type 0 where
  pub id : Text
  pub message : Text
  pub severity : Text
  pub message_args : List Text
  pub resolution : Text

pub record LogEntry : Type 0 where
  pub base : Resource
  pub id : Text
  pub entry_type : Text
  pub severity : Text
  pub created : Text
  pub message : Message
  pub sensor_number : ℕ
  pub sensor_type : Text
  pub entry_code : Text
  pub event_id : Text
  pub event_timestamp : Text
  pub event_type : Text

-- `Message::get_specific_json`, which writes into the object of the entry.
unfoldable pub specific_json : Message → Fields → Fields
specific_json m fs =
    fields
      ((codes "Message", Node.string m.message)
        ∷ (codes "MessageArgs", Node.array (strings m.message_args))
        ∷ (codes "MessageId", Node.string m.id)
        ∷ [])
      fs

-- `LogEntry::get_json`
unfoldable pub log_entry_json : LogEntry → Node
log_entry_json r = Node.object (
    resource_json r.base (
      fields
        ((codes "Id", Node.string r.id)
          ∷ (codes "EntryType", Node.string r.entry_type)
          ∷ (codes "Severity", Node.string r.severity)
          ∷ (codes "Created", Node.string r.created)
          ∷ [])
        (specific_json r.message (
          fields
            ((codes "SensorNumber", Node.number r.sensor_number)
              ∷ (codes "SensorType", Node.string r.sensor_type)
              ∷ (codes "EntryCode", Node.string r.entry_code)
              ∷ (codes "EventId", Node.string r.event_id)
              ∷ (codes "EventTimeStamp", Node.string r.event_timestamp)
              ∷ (codes "EventType", Node.string r.event_type)
              ∷ [])
            Fields.end))))

-- `LogEntry::load_json` and `Message::load_specific_json`
unfoldable pub load_log_entry : Steps LogEntry
load_log_entry =
    Steps.inherit (λ r. r.base) (λ r b. record r { base = b }) load_resource
    ▸ Steps.read_string [] (Hop.get_key (codes "Id")) (λ r t. record r { id = t })
    ▸ Steps.read_string [] (Hop.get_key (codes "EntryType")) (λ r t. record r { entry_type = t })
    ▸ Steps.read_string [] (Hop.get_key (codes "Severity")) (λ r t. record r { severity = t })
    ▸ Steps.read_string [] (Hop.get_key (codes "Created")) (λ r t. record r { created = t })
    ▸ Steps.read_string [] (Hop.get_key (codes "Message"))
        (λ r t. record r { message = record r.message { message = t } })
    ▸ Steps.read_string [] (Hop.get_key (codes "MessageId"))
        (λ r t. record r { message = record r.message { id = t } })
    ▸ Steps.update (λ r. record r { message = record r.message { message_args = [] } })
    ▸ Steps.read_strings false (Hop.get_key (codes "MessageArgs") ∷ []) (λ r ts. record r {
      message = record r.message { message_args = r.message.message_args ++ ts };
    })
    ▸ Steps.read_number [] (Hop.get_key (codes "SensorNumber"))
        (λ r n. record r { sensor_number = n })
    ▸ Steps.read_string [] (Hop.get_key (codes "SensorType")) (λ r t. record r { sensor_type = t })
    ▸ Steps.read_string [] (Hop.get_key (codes "EntryCode")) (λ r t. record r { entry_code = t })
    ▸ Steps.read_string [] (Hop.get_key (codes "EventId")) (λ r t. record r { event_id = t })
    ▸ Steps.read_string [] (Hop.get_key (codes "EventTimeStamp"))
        (λ r t. record r { event_timestamp = t })
    ▸ Steps.read_string [] (Hop.get_key (codes "EventType")) (λ r t. record r { event_type = t })
    ▸ Steps.done

run-log_entry_json :
    (e fresh : LogEntry)
    → e.base.type < 256
    → run load_log_entry (log_entry_json e) fresh
      ≡ some (record e {
        message = record e.message {
          severity = fresh.message.severity;
          resolution = fresh.message.resolution;
        };
      })
unfolding run load_resource resource_json last_node follow_node node_at last_field text_eq
    status_json load_status texts_of strings load_log_entry log_entry_json specific_json
run-log_entry_json e fresh h =
    rw (texts_of-strings e.message.message_args, run) (rw (atoi8-to_string e.base.type h, run) refl)

-- A saved log entry is loaded as it was, but for the severity and the resolution of its message.
pub perform-log_entry_json :
    (L : Library) (law : IsLawful L) (e fresh : LogEntry)
    → e.base.type < 256
    → Fits (log_entry_json e)
    → perform L load_log_entry (make L (log_entry_json e)) fresh ≡ (
      true,
      (record e {
        message = record e.message {
          severity = fresh.message.severity;
          resolution = fresh.message.resolution;
        };
      }),
    )
perform-log_entry_json L law e fresh h fits =
    perform-make L law load_log_entry (log_entry_json e) fresh
      (record e {
        message = record e.message {
          severity = fresh.message.severity;
          resolution = fresh.message.resolution;
        };
      })
      fits (run-log_entry_json e fresh h)
