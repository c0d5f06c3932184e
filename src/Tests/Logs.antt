-- ===== src/Tests/Logs.antt =====
-- The log of the system, with a maximum of two entries.
use cmm_sdk.Common.{
  ◌≡◌, subst, some_inj, Bool-cases, inl, inr, refl, true, false, none, some, List, [], ◌∷◌, ◌++◌,
  ◌-◌, ◌+◌, map, length, take, arith,
}
use cmm_sdk.Common.Text.{Text, codes, text_eq}
use cmm_sdk.Redfish.Event.{EventInfo}
use cmm_sdk.Log.{
  Sel, make_log_of_sel, position_uri, generate_sel, LogEntry, LogService, Logs, set_key,
  service_uri, entries_uri, generate_log, generate_log_of_sel,
}
use cmm_sdk.Log.Counts.{WithinMax, Sized, generate_log-WithinMax}
use cmm_sdk.Log.Runs.{log_all, wrapped_ids, plain_ids, id_of}
use cmm_sdk.Log.Growth.{generate_log-wraps, generate_log-discards}

abbrev fault : Sel
unfolding generate_sel
fault =
    generate_sel 3 (codes "Assert") (codes "Fan") (codes "Fan stopped") (codes "Critical")
      (codes "2020-01-01") (codes "Alert")

abbrev notice : EventInfo
notice = record {
  event_id = codes "1";
  event_timestamp = codes "2020-01-01";
  event_type = codes "Alert";
  message = fault.message;
}

abbrev small : Text → LogService
small policy = record {
  odata_id = codes "/redfish/v1/Systems/CMM1/LogServices/Log1";
  id = codes "Log1";
  max_number_of_records = 2;
  log_entry_type = codes "Multiple";
  overwrite_policy = policy;
  service_enabled = true;
  record_count = 1;
}

abbrev first_entry : LogEntry
unfolding make_log_of_sel
first_entry =
    make_log_of_sel fault (codes "/redfish/v1/Systems/CMM1/LogServices/Log1/Entries/1") (codes "1")

unfoldable logs : Text → Logs
unfolding set_key
logs policy = record {
  services = set_key (λ k. none) (small policy).odata_id (small policy);
  service_collections = λ k. none;
  entry_collections =
      set_key (λ k. none) (codes "/redfish/v1/Systems/CMM1/LogServices/Log1/Entries")
        (first_entry ∷ []);
  entries = set_key (λ k. none) first_entry.odata_id first_entry;
  saved = [];
}

abbrev wrapping : Text
wrapping = codes "WrapsWhenFull"

abbrev stopping : Text
stopping = codes "NeverOverWrites"

has_small :
    (policy : Text)
    → (logs policy).services (service_uri (codes "System") (codes "Log1")) ≡ some (small policy)
unfolding logs set_key text_eq service_uri position_uri
has_small policy = refl

has_entries :
    (policy : Text)
    → (logs policy).entry_collections (entries_uri (small policy)) ≡ some (first_entry ∷ [])
unfolding logs set_key text_eq entries_uri
has_entries policy = refl

logs-WithinMax : (policy : Text) → WithinMax (logs policy)
unfolding logs set_key
logs-WithinMax policy k svc e = elim (Bool-cases (text_eq (small policy).odata_id k)) [
  | inl same ↦ subst Sized (some_inj (rw same at e)) (omega arith, omega arith, omega arith)
  | inr other ↦ cc (rw other at e)
]

generate_log-WithinMax_example :
    ((ev : EventInfo) (t : Logs)
      → generate_log (codes "System") (codes "Log1") ev (logs stopping) ≡ some t
      → WithinMax t)
    × ((sel : Sel) (t : Logs)
        → generate_log_of_sel (codes "System") (codes "Log1") sel (logs stopping) ≡ some t
        → WithinMax t)
generate_log-WithinMax_example =
    generate_log-WithinMax (codes "System") (codes "Log1") (logs stopping) (logs-WithinMax stopping)

wraps_on : text_eq wrapping (codes "WrapsWhenFull") ≡ true
unfolding text_eq
wraps_on = refl

stops_on : text_eq stopping (codes "WrapsWhenFull") ≡ false
unfolding text_eq
stops_on = refl

generate_log-wraps_example :
    (t : Logs) × (es : List LogEntry) × (log_all
        (generate_log_of_sel (codes "System") (codes "Log1"))
        (fault ∷ fault ∷ [])
        (logs wrapping)
      ≡ some t)
    × (t.entry_collections (entries_uri (small wrapping)) ≡ some es)
    × (map id_of es ≡ map id_of (first_entry ∷ []) ++ wrapped_ids 2 1 (fault ∷ fault ∷ []))
    × (length es ≡ length (first_entry ∷ []) + length (fault ∷ fault ∷ []))
generate_log-wraps_example =
    generate_log-wraps (codes "System") (codes "Log1") (fault ∷ fault ∷ []) (small wrapping)
      (first_entry ∷ []) (logs wrapping) (has_small wrapping) (has_entries wrapping) wraps_on
      (omega arith) (omega arith) (omega arith)

generate_log-discards_example :
    (t : Logs) × (es : List LogEntry) × (log_all
        (generate_log (codes "System") (codes "Log1"))
        (notice ∷ notice ∷ [])
        (logs stopping)
      ≡ some t)
    × (t.entry_collections (entries_uri (small stopping)) ≡ some es)
    × (map id_of es
        ≡ map id_of (first_entry ∷ []) ++ plain_ids 1 (take (2 - 1) (notice ∷ notice ∷ [])))
generate_log-discards_example =
    generate_log-discards (codes "System") (codes "Log1") (notice ∷ notice ∷ []) (small stopping)
      (first_entry ∷ []) (logs stopping) (has_small stopping) (has_entries stopping) stops_on
      (omega arith) (omega arith)
