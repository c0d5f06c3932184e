-- ===== src/Persist/Accounts.antt =====
-- `get_json` and `load_json` of roles, accounts and sessions.
use cmm_sdk.Common.{ℕ, ◌<◌, ◌≡◌, refl, Bool, true, false, Option, none, some, List, [], ◌∷◌, ◌++◌}
use cmm_sdk.Common.Text.{Text, codes, text_eq}
use cmm_sdk.Persist.{Node, Fields, Hop, Steps, Library, IsLawful, make, perform, fields, ◌▸◌}
use cmm_sdk.Persist.Reads.{run, last_node, follow_node, node_at, last_field, texts_of, Fits}
use cmm_sdk.Persist.Correct.{perform-make}
use cmm_sdk.Persist.Base.{
  Resource, resource_json, load_resource, atoi8-to_string, link, status_json, load_status, strings,
  texts_of-strings,
}

pub record Role : Type 0 where
  pub base : Resource
  pub id : Text
  pub is_predefined : Bool
  pub assigned_privileges : List Text

-- With no privileges the loop does nothing, and there is no such field.
unfoldable pub privileges_json : List Text → Fields
privileges_json [] = Fields.end
privileges_json (p ∷ ps) =
    Fields.assign (codes "AssignedPrivileges") (Node.array (strings (p ∷ ps))) Fields.end

-- `Role::get_json`
unfoldable pub role_json : Role → Node
role_json r = Node.object (
    resource_json r.base (
      fields
        ((codes "Id", Node.string r.id) ∷ (codes "IsPredefined", Node.boolean r.is_predefined) ∷ [])
        (privileges_json r.assigned_privileges)))

-- `Role::load_json`
unfoldable pub load_role : Steps Role
load_role =
    Steps.inherit (λ r. r.base) (λ r b. record r { base = b }) load_resource
    ▸ Steps.read_string [] (Hop.at_key (codes "Id")) (λ r t. record r { id = t })
    ▸ Steps.read_bool [] (Hop.at_key (codes "IsPredefined")) (λ r b. record r { is_predefined = b })
    ▸ Steps.read_strings false (Hop.at_key (codes "AssignedPrivileges") ∷ [])
        (λ r ts. record r { assigned_privileges = r.assigned_privileges ++ ts })
    ▸ Steps.done

-- A pointer is the object it refers to, or `none`; of the collection of certificates only the URI is used.
pub record Account : Type 0 where
  pub base : Resource
  pub id : Text
  pub enabled : Bool
  pub password : Text
  pub user_name : Text
  pub locked : Bool
  pub role : Option Role
  pub role_id : Text
  pub certificates : Option Text

abbrev pub role_name : Option Role → Node
role_name none = Node.null
role_name (some r) = Node.string r.id

abbrev pub role_link : Option Role → Node
role_link none = Node.empty
role_link (some r) =
    Node.object (Fields.assign (codes "Role") (link (some r.base.odata_id)) Fields.end)

-- `Account::get_json`
unfoldable pub account_json : Account → Node
account_json r = Node.object (
    resource_json r.base (
      fields
        ((codes "Id", Node.string r.id)
          ∷ (codes "Enabled", Node.boolean r.enabled)
          ∷ (codes "Password", Node.string r.password)
          ∷ (codes "UserName", Node.string r.user_name)
          ∷ (codes "Locked", Node.boolean r.locked)
          ∷ (codes "RoleOdataId", Node.string r.role_id)
          ∷ (codes "RoleId", role_name r.role)
          ∷ (codes "Links", role_link r.role)
          ∷ (codes "Certificates", link r.certificates)
          ∷ [])
        Fields.end))

-- `Account::load_json`
unfoldable pub load_account : Steps Account
load_account =
    Steps.inherit (λ r. r.base) (λ r b. record r { base = b }) load_resource
    ▸ Steps.read_string [] (Hop.at_key (codes "Id")) (λ r t. record r { id = t })
    ▸ Steps.read_bool [] (Hop.at_key (codes "Enabled")) (λ r b. record r { enabled = b })
    ▸ Steps.read_string [] (Hop.at_key (codes "Password")) (λ r t. record r { password = t })
    ▸ Steps.read_string [] (Hop.at_key (codes "UserName")) (λ r t. record r { user_name = t })
    ▸ Steps.read_bool [] (Hop.at_key (codes "Locked")) (λ r b. record r { locked = b })
    ▸ Steps.read_string [] (Hop.at_key (codes "RoleOdataId")) (λ r t. record r { role_id = t })
    ▸ Steps.done

pub record Session : Type 0 where
  pub base : Resource
  pub id : Text
  pub account_id : Text
  pub session_type : Text
  pub account : Option Account
  pub remain_expires_time : ℕ
  pub x_token : Text

abbrev pub holder : Option Account → Text
holder none = []
holder (some a) = a.user_name

-- `Session::get_json`
unfoldable pub session_json : Session → Node
session_json r = Node.object (
    resource_json r.base (
      fields
        ((codes "Id", Node.string r.id)
          ∷ (codes "SessionType", Node.string r.session_type)
          ∷ (codes "AccountId", Node.string r.account_id)
          ∷ (codes "AuthToken", Node.string r.x_token)
          ∷ (codes "UserName", Node.string (holder r.account))
          ∷ [])
        Fields.end))

-- `Session::load_json`
unfoldable pub load_session : Steps Session
load_session =
    Steps.inherit (λ r. r.base) (λ r b. record r { base = b }) load_resource
    ▸ Steps.read_string [] (Hop.get_key (codes "Id")) (λ r t. record r { id = t })
    ▸ Steps.read_string [] (Hop.get_key (codes "AccountId")) (λ r t. record r { account_id = t })
    ▸ Steps.read_string [] (Hop.get_key (codes "AuthToken")) (λ r t. record r { x_token = t })
    ▸ Steps.read_string [] (Hop.get_key (codes "SessionType"))
        (λ r t. record r { session_type = t })
    ▸ Steps.done

run-role_json :
    (r fresh : Role) (p : Text) (ps : List Text)
    → r.base.type < 256
    → run load_role
        (role_json (record r { assigned_privileges = p ∷ ps }))
        (record fresh { assigned_privileges = [] })
      ≡ some (record r { assigned_privileges = p ∷ ps })
unfolding run load_resource resource_json last_node follow_node node_at last_field text_eq
    status_json load_status texts_of strings load_role role_json privileges_json
run-role_json r fresh p ps h = rw (texts_of-strings (p ∷ ps), atoi8-to_string r.base.type h) refl

-- With a privilege, a saved role is loaded as it was.
pub perform-role_json :
    (L : Library) (law : IsLawful L) (r fresh : Role) (p : Text) (ps : List Text)
    → r.base.type < 256
    → Fits (role_json (record r { assigned_privileges = p ∷ ps }))
    → perform L load_role
        (make L (role_json (record r { assigned_privileges = p ∷ ps })))
        (record fresh { assigned_privileges = [] })
      ≡ (true, record r { assigned_privileges = p ∷ ps })
perform-role_json L law r fresh p ps h fits =
    perform-make L law load_role (role_json (record r { assigned_privileges = p ∷ ps }))
      (record fresh { assigned_privileges = [] }) (record r { assigned_privileges = p ∷ ps }) fits
      (run-role_json r fresh p ps h)

run-account_json :
    (a fresh : Account)
    → a.base.type < 256
    → run load_account (account_json a) fresh
      ≡ some (record a { role = fresh.role; certificates = fresh.certificates })
unfolding run load_resource resource_json last_node follow_node node_at last_field text_eq
    status_json load_status texts_of strings load_account account_json
run-account_json a fresh h = rw (atoi8-to_string a.base.type h) refl

-- A saved account is loaded as it was, but for the two pointers.
pub perform-account_json :
    (L : Library) (law : IsLawful L) (a fresh : Account)
    → a.base.type < 256
    → Fits (account_json a)
    → perform L load_account (make L (account_json a)) fresh
      ≡ (true, (record a { role = fresh.role; certificates = fresh.certificates }))
perform-account_json L law a fresh h fits =
    perform-make L law load_account (account_json a) fresh
      (record a { role = fresh.role; certificates = fresh.certificates }) fits
      (run-account_json a fresh h)

run-session_json :
    (x fresh : Session)
    → x.base.type < 256
    → run load_session (session_json x) fresh
      ≡ some (record x { account = fresh.account; remain_expires_time = fresh.remain_expires_time })
unfolding run load_resource resource_json last_node follow_node node_at last_field text_eq
    status_json load_status texts_of strings load_session session_json
run-session_json x fresh h = rw (atoi8-to_string x.base.type h) refl

-- A saved session is loaded as it was, but for the pointer to its account and the remaining time.
pub perform-session_json :
    (L : Library) (law : IsLawful L) (x fresh : Session)
    → x.base.type < 256
    → Fits (session_json x)
    → perform L load_session (make L (session_json x)) fresh ≡ (
      true,
      (record x { account = fresh.account; remain_expires_time = fresh.remain_expires_time }),
    )
perform-session_json L law x fresh h fits =
    perform-make L law load_session (session_json x) fresh
      (record x { account = fresh.account; remain_expires_time = fresh.remain_expires_time }) fits
      (run-session_json x fresh h)
