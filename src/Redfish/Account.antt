-- ===== src/Redfish/Account.antt =====
-- `make_account` of src/task.cpp and the constructor of `Account` of include/resource.hpp.
pub mod Create
pub mod Success
pub mod Patch
pub mod Remove
use cmm_sdk.Common.{
  ℕ, suc, ◌+◌, ◌-◌, Bool, true, false, not, ◌&&◌, ◌||◌, Option, none, some, List, [], ◌∷◌, ◌++◌,
  ◌==◌, ltb, if◌then◌else◌,
}
use cmm_sdk.Common.{length}
use cmm_sdk.Common.Text.{Text, codes, text_eq}
use cmm_sdk.Common.Decimal.{to_string}
use cmm_sdk.Numset.{allocate_numset_num, delete_numset_num, allocate_account_num}
use cmm_sdk.Redfish.Json.{Json, get_string, get_bool}
use cmm_sdk.Redfish.Search.{first_ptr}
use cmm_sdk.Redfish.Rules.{is_end}
use cmm_sdk.Redfish.Guard.{current_session, login_account, login_role}
use cmm_sdk.Redfish.Store.{
  Account, Role, Session, Object, account, Store, odata_account_id, odata_role_id, record_is_exist,
  put, bind_uri, account_at, role_at, follow, resource_save_json, delete_resource,
}
use cmm_sdk.Redfish.Monad.{
  M, ◌>>=◌, ◌>>◌, done, get, modify, deref, json, refuse, success_reply, error_reply, Reply, null,
  resource, status_ok, status_created, status_bad_request, status_conflict,
}

unfoldable pub has_name : Text → Account → Bool
has_name name a = text_eq a.user_name name

abbrev pub account_uri : ℕ → Text
account_uri n = odata_account_id ++ (b'/' ∷ to_string n)

abbrev pub role_uri : Text → Text
role_uri id = odata_role_id ++ (b'/' ∷ id)

-- What the constructor of `Account` does with the role: `none` is a bad pointer.
pub role_link : Store → Text → Option (Option ℕ × Text)
role_link s role_id = elim (s.g_record (role_uri role_id)) [
  | none ↦ some (none, [])
  | some p ↦ elim (role_at s p) [ none ↦ none | some r ↦ some (some p, r.odata_id) ]
]

-- The constructor and the assignments behind it.
pub new_account : ℕ → Option ℕ × Text → Text → Text → Bool → Account
new_account n link user_name password enabled = record {
  odata_id = account_uri n;
  name = codes "User Account";
  id = to_string n;
  enabled = enabled;
  password = password;
  user_name = user_name;
  locked = false;
  role = link.0;
  role_id = link.1;
}

pub add_account : Account → Store → Store
add_account a s = record s {
  heap = put s.heap s.next (some (account a));
  next = suc s.next;
  g_record = bind_uri s.g_record a.odata_id (some s.next);
  accounts = s.accounts ++ s.next ∷ [];
}

module _ (J : Json) where
  open J use {Value, find_field, at_key, as_string, as_bool}

  unfoldable pub then_at {ℓ} :
      {A : Type ℓ} → (Value → Option A) → A → Value → Text → Bool → Option A
  then_at read d body key false = some d
  then_at read d body key true = elim (at_key body key) [ none ↦ none | some v ↦ read v ]

  -- `if(as_object().find(key) != end) x = at(key).as_…()`; `none` is an exception.
  unfoldable pub field_or {ℓ} : {A : Type ℓ} → (Value → Option A) → A → Value → Text → Option A
  unfolding then_at
  field_or read d body key = elim (find_field body key) [
    | none ↦ none
    | some b ↦ then_at read d body key b
  ]

  -- The check that the role exists is made only if the body names one.
  unfoldable pub names_no_role : Store → Bool → Text → Bool
  names_no_role s given role_id = given && not (record_is_exist s (role_uri role_id))

  unfoldable pub make_account : Value → M Reply
  unfolding has_name role_link new_account add_account field_or names_no_role
  make_account body = do
    s ← get
    refuse (not s.account_service_enabled) (codes "Account Service isn't Enabled")
        status_bad_request
    let user_name = get_string J body (codes "UserName")
    let password = get_string J body (codes "Password")
    refuse (not user_name.0 || not password.0) (codes "No UserName or Password") status_bad_request
    refuse (ltb (length password.1) s.min_password_length)
        (codes "Password length must be at least " ++ to_string s.min_password_length)
        status_bad_request
    refuse (ltb s.max_password_length (length password.1))
        (codes "Password length must not exceed " ++ to_string s.max_password_length)
        status_bad_request
    same_name ← deref (first_ptr (account_at s) (has_name user_name.1) s.accounts)
    refuse (not (is_end same_name)) (codes "UserName already exists") status_conflict
    given ← json (find_field body (codes "RoleId"))
    role_id ← json (field_or as_string (codes "ReadOnly") body (codes "RoleId"))
    refuse (names_no_role s given role_id) (codes "No Role") status_bad_request
    enabled ← json (field_or as_bool true body (codes "Enabled"))
    (n, sets) ← deref (allocate_numset_num s.numsets allocate_account_num)
    link ← deref (role_link s role_id)
    let a = new_account n link user_name.1 password.1 enabled
    modify (λ t. add_account a (record t { numsets = sets }))
    modify (resource_save_json a.odata_id)
    modify (resource_save_json odata_account_id)
    done (success_reply (resource a.odata_id) status_created)
