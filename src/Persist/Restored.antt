-- ===== src/Persist/Restored.antt =====
-- What is left of the resources after they are saved and loaded again.
use cmm_sdk.Common.{◌<◌, ◌≡◌, true, List, [], ◌∷◌}
use cmm_sdk.Common.Text.{Text}
use cmm_sdk.Persist.{Node, Library, IsLawful, make, perform}
use cmm_sdk.Persist.Reads.{Fits}
use cmm_sdk.Persist.Base.{Resource}
use cmm_sdk.Persist.Accounts.{
  Role, role_json, load_role, perform-role_json, Account, account_json, load_account,
  perform-account_json, Session, session_json, load_session, perform-session_json,
}
use cmm_sdk.Persist.Services.{
  SessionService, session_service_json, load_session_service, perform-session_service_json,
  TaskService, task_service_json, load_task_service, perform-task_service_json,
}
use cmm_sdk.Persist.AccountService.{
  AccountService, account_service_json, load_account_service, perform-account_service_json,
}
use cmm_sdk.Persist.AccountService
use cmm_sdk.Persist.Events.{
  EventDestination, event_destination_json, load_event_destination, perform-event_destination_json,
  EventService, event_service_json, load_event_service, perform-event_service_json,
}
use cmm_sdk.Persist.Entries.{LogEntry, log_entry_json, load_log_entry, perform-log_entry_json}
use cmm_sdk.Persist.Logs.{LogService, log_service_json, load_log_service, perform-log_service_json}
use cmm_sdk.Persist.Ethernet.{
  EthernetInterfaces, ethernet_json, load_ethernet, load_ethernet_json, perform-ethernet_json,
}
use cmm_sdk.Persist.Protocols.{
  NetworkProtocol, protocols_json, load_protocols, perform-protocols_json, restored,
}
use cmm_sdk.Persist.Protocols

-- The type is a `uint8_t`, and every number fits an `int`.
unfoldable pub Savable : Resource → Node → Type 0
Savable r n = (r.type < 256) × Fits n

module _ (L : Library) (law : IsLawful L) where
  -- With a lawful library, types that fit a byte and numbers that fit an `int`:
  -- a role with a privilege is loaded as it was saved; an account but for the pointers to its role and certificates,
  -- a session but for the pointer to its account and the remaining time, which the object that is loaded into keeps.
  pub accounts_restored :
      (r new_r : Role) (p : Text) (ps : List Text) (a new_a : Account) (x new_x : Session)
      → Savable r.base (role_json (record r { assigned_privileges = p ∷ ps }))
      → Savable a.base (account_json a)
      → Savable x.base (session_json x)
      → (perform L load_role
            (make L (role_json (record r { assigned_privileges = p ∷ ps })))
            (record new_r { assigned_privileges = [] })
          ≡ (true, (record r { assigned_privileges = p ∷ ps })))
        × (perform L load_account (make L (account_json a)) new_a
            ≡ (true, record a { role = new_a.role; certificates = new_a.certificates }))
        × (perform L load_session (make L (session_json x)) new_x ≡ (
          true,
          record x { account = new_x.account; remain_expires_time = new_x.remain_expires_time },
        ))
  unfolding Savable
  accounts_restored r new_r p ps a new_a x new_x h0 h1 h2 = (
    perform-role_json L law r new_r p ps h0.0 h0.1,
    perform-account_json L law a new_a h1.0 h1.1,
    perform-session_json L law x new_x h2.0 h2.1,
  )

  -- With a lawful library, types that fit a byte and numbers that fit an `int`:
  -- the services of sessions, tasks and accounts are loaded as they were saved, but for the pointers to their
  -- collections, into objects without lists.
  pub services_restored :
      (s new_s : SessionService) (t new_t : TaskService) (a new_a : AccountService)
      → Savable s.base (session_service_json s)
      → Savable t.base (task_service_json t)
      → Savable a.base (account_service_json a)
      → (perform L load_session_service (make L (session_service_json s)) new_s
          ≡ (true, record s { session_collection = new_s.session_collection }))
        × (perform L load_task_service (make L (task_service_json t)) new_t
            ≡ (true, record t { task_collection = new_t.task_collection }))
        × (perform L load_account_service
              (make L (account_service_json a))
              (AccountService.without_lists new_a)
            ≡ (
              true,
              record a {
                account_collection = new_a.account_collection;
                role_collection = new_a.role_collection;
              },
            ))
  unfolding Savable
  services_restored s new_s t new_t a new_a h0 h1 h2 = (
    perform-session_service_json L law s new_s h0.0 h0.1,
    perform-task_service_json L law t new_t h1.0 h1.1,
    perform-account_service_json L law a new_a h2.0 h2.1,
  )

  -- With a lawful library, types that fit a byte and numbers that fit an `int`:
  -- a subscription is loaded as it was saved; the event service but for its subscriptions and actions; a log entry but
  -- for the severity and resolution of its message; a log service but for its entries, actions and number of records.
  -- The lists of the objects that are loaded into are empty.
  pub events_and_logs_restored :
      (d new_d : EventDestination) (s new_s : EventService) (e new_e : LogEntry)
      (l new_l : LogService)
      → Savable d.base (event_destination_json d)
      → Savable s.base (event_service_json s)
      → Savable e.base (log_entry_json e)
      → Savable l.base (log_service_json l)
      → (perform L load_event_destination
            (make L (event_destination_json d))
            (record new_d { event_types = [] })
          ≡ (true, d))
        × (perform L load_event_service
              (make L (event_service_json s))
              (record new_s { event_types_for_subscription = [] })
            ≡ (true, record s { subscriptions = new_s.subscriptions; actions = new_s.actions }))
        × (perform L load_log_entry (make L (log_entry_json e)) new_e ≡ (
          true,
          record e {
            message = record e.message {
              severity = new_e.message.severity;
              resolution = new_e.message.resolution;
            };
          },
        ))
        × (perform L load_log_service
              (make L (log_service_json l))
              (record new_l { syslog_filters = [] })
            ≡ (
              true,
              record l {
                entry = new_l.entry;
                actions = new_l.actions;
                record_count = new_l.record_count;
              },
            ))
  unfolding Savable
  events_and_logs_restored d new_d s new_s e new_e l new_l h0 h1 h2 h3 = (
    perform-event_destination_json L law d new_d h0.0 h0.1,
    perform-event_service_json L law s new_s h1.0 h1.1,
    perform-log_entry_json L law e new_e h2.0 h2.1,
    perform-log_service_json L law l new_l h3.0 h3.1,
  )

  -- With a lawful library, types that fit a byte and numbers that fit an `int`:
  -- a network interface is loaded as it was saved, without an exception, and the network protocols but for SSH, the virtual media and the
  -- certificates, which keep what the object that is loaded into has. The lists of that object are empty.
  pub network_restored :
      (e new_e : EthernetInterfaces) (p new_p : NetworkProtocol)
      → Savable e.base (ethernet_json e)
      → Savable p.base (protocols_json p)
      → (perform L load_ethernet
            (make L (ethernet_json e))
            (record new_e { name_servers = []; v_ipv4 = []; v_ipv6 = [] })
          ≡ (true, e))
        × (load_ethernet_json L
              (make L (ethernet_json e))
              (record new_e { name_servers = []; v_ipv4 = []; v_ipv6 = [] })
            ≡ (true, e))
        × (perform L load_protocols (make L (protocols_json p)) (Protocols.without_lists new_p)
            ≡ (true, restored p new_p))
  unfolding Savable
  network_restored e new_e p new_p h0 h1 = (
    (perform-ethernet_json L law e new_e h0.0 h0.1).0,
    (perform-ethernet_json L law e new_e h0.0 h0.1).1,
    perform-protocols_json L law p new_p h1.0 h1.1,
  )
