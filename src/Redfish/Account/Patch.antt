-- ===== src/Redfish/Account/Patch.antt =====
-- `modify_account` of src/task.cpp.
pub mod Permitted
use cmm_sdk.Common.{
  ℕ, ◌+◌, Bool, true, false, not, ◌&&◌, ◌||◌, Option, none, some, List, [], ◌∷◌, ◌++◌, ltb,
  if◌then◌else◌, length,
}
use cmm_sdk.Common.Text.{Text, codes, text_eq}
use cmm_sdk.Common.Decimal.{to_string}
use cmm_sdk.Util.Names.{get_current_object_name}
use cmm_sdk.Redfish.Json.{Json, get_string, get_bool}
use cmm_sdk.Redfish.Search.{first_ptr}
use cmm_sdk.Redfish.Rules.{is_end}
use cmm_sdk.Redfish.Store.{
  Account, account, Store, record_is_exist, put, account_at, role_at, resource_save_json,
}
use cmm_sdk.Redfish.Monad.{
  M, ◌>>=◌, ◌>>◌, done, get, modify, deref, json, refuse, success_reply, Reply, resource, status_ok,
  status_bad_request,
}
use cmm_sdk.Redfish.Guard.{current_session, login_account, login_role}
use cmm_sdk.Redfish.Account.{role_uri}
use cmm_sdk.Redfish.Role.{administrator}

-- The loop over the names skips the account itself.
unfoldable pub uses_name : Text → Text → Account → Bool
uses_name last name a = not (text_eq a.id last) && text_eq a.user_name name

-- `some (some p)`: another member has the name. The loop runs only if a name is to be set.
unfoldable pub name_in_use : Bool → Store → Text → Text → Option (Option ℕ)
name_in_use false s last name = some none
name_in_use true s last name = first_ptr (account_at s) (uses_name last name) s.accounts

unfoldable pub wrong_length : Store → Text → Bool
wrong_length s pass =
    ltb (length pass) s.min_password_length || ltb s.max_password_length (length pass)

-- The pointer and the URI of the role that is set; `none` is a bad pointer.
unfoldable pub picked_role : Bool → Store → Text → Account → Option (Option ℕ × Text)
picked_role false s role_id old = some (old.role, old.role_id)
picked_role true s role_id old = elim (s.g_record (role_uri role_id)) [
  | none ↦ none
  | some q ↦ elim (role_at s q) [ none ↦ none | some r ↦ some (some q, r.odata_id) ]
]

unfoldable pub put_account : ℕ → Account → Store → Store
put_account p a s = record s { heap = put s.heap p (some (account a)) }

module _ (J : Json) where
  unfoldable pub modify_account : Option Text → J.Value → Text → M Reply
  modify_account header body uri = do
    s ← get
    refuse (not (record_is_exist s uri)) (codes "No Account") status_bad_request
    x ← current_session header
    a ← login_account x
    r ← login_role a
    last ← json (get_current_object_name uri (codes "/"))
    let admin = text_eq r.id administrator
    let role_id = get_string J body (codes "RoleId")
    let op_role = admin && role_id.0
    refuse (op_role && not (record_is_exist s (role_uri role_id.1)))
        (role_id.1 ++ codes " does not exist") status_bad_request
    let own = admin || text_eq a.id last
    let name = get_string J body (codes "UserName")
    let op_name = own && name.0
    taken ← deref (name_in_use op_name s last name.1)
    refuse (not (is_end taken)) (codes "UserName is already in use") status_bad_request
    let pass = get_string J body (codes "Password")
    let op_pass = own && pass.0
    refuse (op_pass && wrong_length s pass.1)
        (codes "Password Range is "
          ++ (to_string s.min_password_length ++ (codes " ~ " ++ to_string s.max_password_length)))
        status_bad_request
    let enabled = get_bool J body (codes "Enabled")
    let op_enable = own && enabled.0
    refuse (not op_role && (not op_name && (not op_pass && not op_enable)))
        (codes "Cannot Modify Account") status_bad_request
    p ← deref (s.g_record uri)
    old ← deref (account_at s p)
    link ← deref (picked_role op_role s role_id.1 old)
    modify (
        put_account p (record old {
          role = link.0;
          role_id = link.1;
          user_name = if op_name then name.1 else old.user_name;
          password = if op_pass then pass.1 else old.password;
          enabled = if op_enable then enabled.1 else old.enabled;
        }))
    modify (resource_save_json old.odata_id)
    done (success_reply (resource uri) status_ok)
