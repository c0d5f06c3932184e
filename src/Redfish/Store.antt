-- ===== src/Redfish/Store.antt =====
-- Resources of include/resource.hpp on a heap, the table `g_record`, and the files under it.
use cmm_sdk.Common.{
  ℕ, suc, Bool, true, false, Option, none, some, List, [], ◌∷◌, ◌++◌, ◌==◌, if◌then◌else◌,
}
use cmm_sdk.Common.Text.{Text, codes, text_eq}
use cmm_sdk.Numset.{Numsets}

-- Pointers are numbers; `none` is `nullptr`. The collection of certificates is left out.
pub record Account : Type 0 where
  pub odata_id : Text
  pub name : Text
  pub id : Text
  pub enabled : Bool
  pub password : Text
  pub user_name : Text
  pub locked : Bool
  pub role : Option ℕ
  pub role_id : Text

pub record Role : Type 0 where
  pub odata_id : Text
  pub name : Text
  pub id : Text
  pub is_predefined : Bool
  pub assigned_privileges : List Text

pub record Session : Type 0 where
  pub odata_id : Text
  pub id : Text
  pub account_id : Text
  pub session_type : Text
  pub account : Option ℕ
  pub remain_expires_time : ℕ
  pub x_token : Text

pub record EventDestination : Type 0 where
  pub odata_id : Text
  pub name : Text
  pub id : Text
  pub destination : Text
  pub subscription_type : Text
  pub delivery_retry_policy : Text
  pub event_types : List Text
  pub protocol : Text
  pub context : Text
  pub state : Text
  pub health : Text

pub data Object : Type 0 where
  account : Account → Object
  role : Role → Object
  session : Session → Object
  event_destination : EventDestination → Object

-- What happened to the `.json` file of a resource.
pub data Disk : Type 0 where
  saved removed : Text → Disk

pub record Store : Type 0 where
  -- The objects that are alive. Addresses from `next` on were never used.
  pub heap : ℕ → Option Object
  pub next : ℕ
  pub g_record : Text → Option ℕ
  -- `members` of the collections
  pub accounts : List ℕ
  pub roles : List ℕ
  pub sessions : List ℕ
  -- `members` of the collection of event destinations
  pub subscriptions : List ℕ
  pub account_service_enabled : Bool
  pub min_password_length : ℕ
  pub max_password_length : ℕ
  pub session_service_enabled : Bool
  pub session_timeout : ℕ
  pub numsets : Numsets
  pub disk : List Disk

unfoldable pub odata_account_id : Text
odata_account_id = codes "/redfish/v1/AccountService/Accounts"

unfoldable pub odata_role_id : Text
odata_role_id = codes "/redfish/v1/AccountService/Roles"

unfoldable pub odata_session_id : Text
odata_session_id = codes "/redfish/v1/SessionService/Sessions"

unfoldable pub odata_event_destination_id : Text
odata_event_destination_id = codes "/redfish/v1/EventService/Subscriptions"

unfoldable pub record_is_exist : Store → Text → Bool
record_is_exist s uri = elim (s.g_record uri) [ none ↦ false | some p ↦ true ]

-- Writes through a pointer, and `new`, `delete`.
unfoldable pub put : (ℕ → Option Object) → ℕ → Option Object → ℕ → Option Object
put heap p o q = if p == q then o else heap q

unfoldable pub bind_uri : (Text → Option ℕ) → Text → Option ℕ → Text → Option ℕ
bind_uri table uri p key = if text_eq uri key then p else table key

-- `none`: the pointer does not point to a live object of that class.
unfoldable pub account_at : Store → ℕ → Option Account
account_at s p = elim (s.heap p) [ some (account a) ↦ some a | _ ↦ none ]

unfoldable pub role_at : Store → ℕ → Option Role
role_at s p = elim (s.heap p) [ some (role r) ↦ some r | _ ↦ none ]

unfoldable pub session_at : Store → ℕ → Option Session
session_at s p = elim (s.heap p) [ some (session x) ↦ some x | _ ↦ none ]

unfoldable pub destination_at : Store → ℕ → Option EventDestination
destination_at s p = elim (s.heap p) [ some (event_destination d) ↦ some d | _ ↦ none ]

-- `p->x` where `p` may be null
abbrev pub follow {ℓ} : {A : Type ℓ} → (ℕ → Option A) → Option ℕ → Option A
follow read none = none
follow read (some p) = read p

-- `g_record[uri]` puts a null pointer under a key that is missing: an address at which nothing lives.
unfoldable pub subscript : Text → Store → Store
unfolding bind_uri
subscript uri s = elim (s.g_record uri) [
  | none ↦ record s { g_record = bind_uri s.g_record uri (some s.next); next = suc s.next }
  | some p ↦ s
]

-- `resource_save_json`: nothing is written for a URI that is not in the table.
unfoldable pub resource_save_json : Text → Store → Store
unfolding record_is_exist
resource_save_json uri s =
    if record_is_exist s uri then record s { disk = s.disk ++ saved uri ∷ [] } else s

-- `delete_resource`: the file goes only if the URI is no longer in the table.
unfoldable pub delete_resource : Text → Store → Store
unfolding record_is_exist
delete_resource uri s =
    if record_is_exist s uri then s else record s { disk = s.disk ++ removed uri ∷ [] }
