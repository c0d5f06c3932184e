-- ===== src/Persist/AccountService/Directories.antt =====
-- The settings of LDAP and of the active directory, written and read.
use cmm_sdk.Common.{ℕ, Bool, false, List, [], ◌∷◌, ◌++◌}
use cmm_sdk.Common.Text.{Text, codes}
use cmm_sdk.Persist.{Node, Fields, Hop, Steps, fields, ◌▸◌}
use cmm_sdk.Persist.Base.{strings}

pub record Authentication : Type 0 where
  pub authentication_type : Text
  pub username : Text
  pub password : Text

pub record SearchSetting : Type 0 where
  pub base_distinguished_names : List Text
  pub groups_attribute : Text
  pub group_name_attribute : Text
  pub user_name_attribute : Text

pub record LdapService : Type 0 where
  pub search_settings : SearchSetting

pub record Ldap : Type 0 where
  pub account_provider_type : Text
  pub password_set : Bool
  pub service_enabled : Bool
  pub port : ℕ
  pub service_addresses : List Text
  pub authentication : Authentication
  pub ldap_service : LdapService

pub record ActiveDirectory : Type 0 where
  pub account_provider_type : Text
  pub service_enabled : Bool
  pub port : ℕ
  pub service_addresses : List Text
  pub authentication : Authentication

unfoldable pub authentication_json : Authentication → Node
authentication_json r = Node.object (
    fields
      ((codes "AuthenticationType", Node.string r.authentication_type)
        ∷ (codes "Username", Node.string r.username)
        ∷ (codes "Password", Node.string r.password)
        ∷ [])
      Fields.end)

unfoldable pub setting_json : SearchSetting → Node
setting_json r = Node.object (
    fields
      ((codes "GroupsAttribute", Node.string r.groups_attribute)
        ∷ (codes "GroupNameAttribute", Node.string r.group_name_attribute)
        ∷ (codes "UsernameAttribute", Node.string r.user_name_attribute)
        ∷ (codes "BaseDistinguishedNames", Node.array (strings r.base_distinguished_names))
        ∷ [])
      Fields.end)

unfoldable pub ldap_service_json : LdapService → Node
ldap_service_json r =
    Node.object (fields ((codes "SearchSettings", setting_json r.search_settings) ∷ []) Fields.end)

unfoldable pub ldap_json : Ldap → Node
ldap_json r = Node.object (
    fields
      ((codes "AccountProviderType", Node.string r.account_provider_type)
        ∷ (codes "PasswordSet", Node.boolean r.password_set)
        ∷ (codes "ServiceEnabled", Node.boolean r.service_enabled)
        ∷ (codes "Port", Node.number r.port)
        ∷ (codes "ServiceAddresses", Node.array (strings r.service_addresses))
        ∷ (codes "Authentication", authentication_json r.authentication)
        ∷ (codes "LDAPService", ldap_service_json r.ldap_service)
        ∷ [])
      Fields.end)

unfoldable pub directory_json : ActiveDirectory → Node
directory_json r = Node.object (
    fields
      ((codes "AccountProviderType", Node.string r.account_provider_type)
        ∷ (codes "ServiceEnabled", Node.boolean r.service_enabled)
        ∷ (codes "Port", Node.number r.port)
        ∷ (codes "ServiceAddresses", Node.array (strings r.service_addresses))
        ∷ (codes "Authentication", authentication_json r.authentication)
        ∷ [])
      Fields.end)

unfoldable pub load_authentication : Steps Authentication
load_authentication =
    Steps.read_string [] (Hop.get_key (codes "AuthenticationType"))
      (λ r t. record r { authentication_type = t })
    ▸ Steps.read_string [] (Hop.get_key (codes "Username")) (λ r t. record r { username = t })
    ▸ Steps.read_string [] (Hop.get_key (codes "Password")) (λ r t. record r { password = t })
    ▸ Steps.done

unfoldable pub load_setting : Steps SearchSetting
load_setting =
    Steps.read_strings false (Hop.get_key (codes "BaseDistinguishedNames") ∷ [])
      (λ r ts. record r { base_distinguished_names = r.base_distinguished_names ++ ts })
    ▸ Steps.read_string [] (Hop.get_key (codes "GroupsAttribute"))
        (λ r t. record r { groups_attribute = t })
    ▸ Steps.read_string [] (Hop.get_key (codes "GroupNameAttribute"))
        (λ r t. record r { group_name_attribute = t })
    ▸ Steps.read_string [] (Hop.get_key (codes "UsernameAttribute"))
        (λ r t. record r { user_name_attribute = t })
    ▸ Steps.done

unfoldable pub load_ldap_service : Steps LdapService
load_ldap_service =
    Steps.inner (Hop.get_key (codes "SearchSettings")) (λ r. r.search_settings)
      (λ r x. record r { search_settings = x }) load_setting
    ▸ Steps.done

unfoldable pub load_ldap : Steps Ldap
load_ldap =
    Steps.read_string [] (Hop.get_key (codes "AccountProviderType"))
      (λ r t. record r { account_provider_type = t })
    ▸ Steps.read_bool [] (Hop.get_key (codes "PasswordSet")) (λ r b. record r { password_set = b })
    ▸ Steps.read_bool [] (Hop.get_key (codes "ServiceEnabled"))
        (λ r b. record r { service_enabled = b })
    ▸ Steps.read_number [] (Hop.get_key (codes "Port")) (λ r n. record r { port = n })
    ▸ Steps.read_strings false (Hop.get_key (codes "ServiceAddresses") ∷ [])
        (λ r ts. record r { service_addresses = r.service_addresses ++ ts })
    ▸ Steps.inner (Hop.get_key (codes "Authentication")) (λ r. r.authentication)
        (λ r x. record r { authentication = x }) load_authentication
    ▸ Steps.inner (Hop.get_key (codes "LDAPService")) (λ r. r.ldap_service)
        (λ r x. record r { ldap_service = x }) load_ldap_service
    ▸ Steps.done

unfoldable pub load_directory : Steps ActiveDirectory
load_directory =
    Steps.read_string [] (Hop.get_key (codes "AccountProviderType"))
      (λ r t. record r { account_provider_type = t })
    ▸ Steps.read_bool [] (Hop.get_key (codes "ServiceEnabled"))
        (λ r b. record r { service_enabled = b })
    ▸ Steps.read_number [] (Hop.get_key (codes "Port")) (λ r n. record r { port = n })
    ▸ Steps.read_strings false (Hop.get_key (codes "ServiceAddresses") ∷ [])
        (λ r ts. record r { service_addresses = r.service_addresses ++ ts })
    ▸ Steps.inner (Hop.get_key (codes "Authentication")) (λ r. r.authentication)
        (λ r x. record r { authentication = x }) load_authentication
    ▸ Steps.done
