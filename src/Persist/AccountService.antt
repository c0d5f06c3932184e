-- ===== src/Persist/AccountService.antt =====
-- `get_json` and `load_json` of the account service.
pub mod Directories
use cmm_sdk.Common.{ℕ, ◌<◌, ◌≡◌, refl, Bool, true, false, Option, none, some, List, [], ◌∷◌, ◌++◌}
use cmm_sdk.Common.Text.{Text, codes, text_eq}
use cmm_sdk.Common.Decimal.{to_string}
use cmm_sdk.Persist.{Node, Fields, Items, Hop, Steps, Library, IsLawful, make, perform, fields, ◌▸◌}
use cmm_sdk.Persist.Reads.{
  run, last_node, follow_node, node_at, last_field, texts_of, items_by, Fits, AllFit, EachFits,
}
use cmm_sdk.Persist.Correct.{perform-make}
use cmm_sdk.Persist.Base.{
  Resource, resource_json, load_resource, atoi8, atoi8-to_string, link, Status, status_json,
  load_status, strings, items, texts_of-strings, items_by-items, Actions, action_info,
}
use cmm_sdk.Persist.AccountService.Directories.{
  Authentication, SearchSetting, LdapService, Ldap, ActiveDirectory, authentication_json,
  setting_json, ldap_service_json, ldap_json, directory_json, load_authentication, load_setting,
  load_ldap_service, load_ldap, load_directory,
}

pub record AccountService : Type 0 where
  pub base : Resource
  pub id : Text
  pub status : Status
  pub service_enabled : Bool
  pub auth_failure_logging_threshold : ℕ
  pub min_password_length : ℕ
  pub max_password_length : ℕ
  pub account_lockout_threshold : ℕ
  pub account_lockout_duration : ℕ
  pub account_lockout_counter_reset_after : ℕ
  pub account_lockout_counter_reset_enabled : Bool
  pub account_collection : Option Text
  pub role_collection : Option Text
  pub ldap : Ldap
  pub active_directory : ActiveDirectory

-- `AccountService::get_json`
unfoldable pub account_service_json : AccountService → Node
account_service_json r = Node.object (
    resource_json r.base (
      fields
        ((codes "Id", Node.string r.id)
          ∷ (codes "Status", status_json r.status)
          ∷ (codes "ServiceEnabled", Node.boolean r.service_enabled)
          ∷ (codes "AuthFailureLoggingThreshold", Node.number r.auth_failure_logging_threshold)
          ∷ (codes "MinPasswordLength", Node.number r.min_password_length)
          ∷ (codes "MaxPasswordLength", Node.number r.max_password_length)
          ∷ (codes "AccountLockoutThreshold", Node.number r.account_lockout_threshold)
          ∷ (codes "AccountLockoutDuration", Node.number r.account_lockout_duration)
          ∷ (
            codes "AccountLockoutCounterResetAfter",
            Node.number r.account_lockout_counter_reset_after,
          )
          ∷ (
            codes "AccountLockoutCounterResetEnabled",
            Node.boolean r.account_lockout_counter_reset_enabled,
          )
          ∷ (codes "Accounts", link r.account_collection)
          ∷ (codes "Roles", link r.role_collection)
          ∷ (codes "LDAP", ldap_json r.ldap)
          ∷ (codes "ActiveDirectory", directory_json r.active_directory)
          ∷ [])
        Fields.end))

-- `AccountService::load_json`
unfoldable pub load_account_service : Steps AccountService
load_account_service =
    Steps.inherit (λ r. r.base) (λ r b. record r { base = b }) load_resource
    ▸ Steps.read_string [] (Hop.at_key (codes "Id")) (λ r t. record r { id = t })
    ▸ Steps.read_bool [] (Hop.at_key (codes "ServiceEnabled"))
        (λ r b. record r { service_enabled = b })
    ▸ Steps.read_number [] (Hop.at_key (codes "AuthFailureLoggingThreshold"))
        (λ r n. record r { auth_failure_logging_threshold = n })
    ▸ Steps.read_number [] (Hop.at_key (codes "MinPasswordLength"))
        (λ r n. record r { min_password_length = n })
    ▸ Steps.read_number [] (Hop.at_key (codes "MaxPasswordLength"))
        (λ r n. record r { max_password_length = n })
    ▸ Steps.read_number [] (Hop.at_key (codes "AccountLockoutThreshold"))
        (λ r n. record r { account_lockout_threshold = n })
    ▸ Steps.read_number [] (Hop.at_key (codes "AccountLockoutDuration"))
        (λ r n. record r { account_lockout_duration = n })
    ▸ Steps.read_number [] (Hop.at_key (codes "AccountLockoutCounterResetAfter"))
        (λ r n. record r { account_lockout_counter_reset_after = n })
    ▸ Steps.read_bool [] (Hop.at_key (codes "AccountLockoutCounterResetEnabled"))
        (λ r b. record r { account_lockout_counter_reset_enabled = b })
    ▸ Steps.inner (Hop.at_key (codes "Status")) (λ r. r.status) (λ r x. record r { status = x })
        load_status
    ▸ Steps.inner (Hop.get_key (codes "LDAP")) (λ r. r.ldap) (λ r x. record r { ldap = x })
        load_ldap
    ▸ Steps.inner (Hop.get_key (codes "ActiveDirectory")) (λ r. r.active_directory)
        (λ r x. record r { active_directory = x }) load_directory
    ▸ Steps.done

-- The lists that a new service starts with.
abbrev pub without_lists : AccountService → AccountService
without_lists r = record r {
  ldap = record r.ldap {
    service_addresses = [];
    ldap_service = record r.ldap.ldap_service {
      search_settings = record r.ldap.ldap_service.search_settings {
        base_distinguished_names = [];
      };
    };
  };
  active_directory = record r.active_directory { service_addresses = [] };
}

run-account_service_json :
    (s fresh : AccountService)
    → s.base.type < 256
    → run load_account_service (account_service_json s) (without_lists fresh)
      ≡ some (record s {
        account_collection = fresh.account_collection;
        role_collection = fresh.role_collection;
      })
unfolding run load_resource resource_json last_node follow_node node_at last_field text_eq
    status_json load_status texts_of strings load_account_service account_service_json
    authentication_json setting_json ldap_service_json ldap_json directory_json load_authentication
    load_setting load_ldap_service load_ldap load_directory
run-account_service_json s fresh h =
    rw (texts_of-strings s.ldap.service_addresses, run)
      (rw (texts_of-strings s.ldap.ldap_service.search_settings.base_distinguished_names, run)
        (rw (texts_of-strings s.active_directory.service_addresses, run)
          (rw (atoi8-to_string s.base.type h, run) refl)))

-- A saved account service is loaded as it was, but for the pointers to its accounts and roles.
pub perform-account_service_json :
    (L : Library) (law : IsLawful L) (s fresh : AccountService)
    → s.base.type < 256
    → Fits (account_service_json s)
    → perform L load_account_service (make L (account_service_json s)) (without_lists fresh) ≡ (
      true,
      (record s {
        account_collection = fresh.account_collection;
        role_collection = fresh.role_collection;
      }),
    )
perform-account_service_json L law s fresh h fits =
    perform-make L law load_account_service (account_service_json s) (without_lists fresh)
      (record s {
        account_collection = fresh.account_collection;
        role_collection = fresh.role_collection;
      })
      fits (run-account_service_json s fresh h)
