-- ===== src/Redfish/Role.antt =====
-- `make_role`, `modify_role` and `remove_role` of src/task.cpp, `check_role_privileges` of
-- src/util.cpp.
pub mod Create
pub mod Success
pub mod Change
pub mod Orphans
use cmm_sdk.Common.{
  ℕ, zero, suc, ◌+◌, ◌-◌, Bool, true, false, not, ◌&&◌, ◌||◌, Option, none, some, List, [], ◌∷◌,
  ◌++◌, ◌==◌, if◌then◌else◌, length,
}
use cmm_sdk.Common.Text.{Text, codes, text_eq, is_empty, contains}
use cmm_sdk.Util.Names.{get_parent_object_uri}
use cmm_sdk.Redfish.Json.{Json, get_string, get_json}
use cmm_sdk.Redfish.Search.{first_ptr}
use cmm_sdk.Redfish.Rules.{is_end}
use cmm_sdk.Redfish.Guard.{current_session, login_account, login_role}
use cmm_sdk.Redfish.Store.{
  Account, Role, Session, Object, account, role, Store, odata_account_id, odata_role_id,
  record_is_exist, put, bind_uri, account_at, role_at, follow, subscript, resource_save_json,
  delete_resource,
}
use cmm_sdk.Redfish.Monad.{
  M, ◌>>=◌, ◌>>◌, done, get, modify, deref, json, refuse, success_reply, error_reply, Reply, null,
  resource, status_ok, status_created, status_bad_request,
}

pub privilege_names : List Text
privilege_names =
    codes "ConfigureComponents"
    ∷ codes "ConfigureManager"
    ∷ codes "ConfigureSelf"
    ∷ codes "ConfigureUsers"
    ∷ codes "Login"
    ∷ codes "NoAuth"
    ∷ []

unfoldable pub check_role_privileges : Text → Bool
unfolding contains privilege_names
check_role_privileges = contains privilege_names

unfoldable pub has_role_id : Text → Role → Bool
has_role_id id r = text_eq r.id id

abbrev pub administrator : Text
administrator = codes "Administrator"

abbrev pub role_uri : Text → Text
role_uri id = odata_role_id ++ (b'/' ∷ id)

-- `new Role(…)` and the assignments behind it; the constructor leaves `is_predefined` as it finds
-- it in memory.
pub new_role : Text → Bool → List Text → Role
new_role id garbage privileges = record {
  odata_id = role_uri id;
  name = codes "User Role";
  id = id;
  is_predefined = garbage;
  assigned_privileges = privileges;
}

pub add_role : Role → Store → Store
add_role r s = record s {
  heap = put s.heap s.next (some (role r));
  next = suc s.next;
  g_record = bind_uri s.g_record r.odata_id (some s.next);
  roles = s.roles ++ s.next ∷ [];
}

-- `service_enabled` of the service at a URI; there is one service here.
unfoldable pub enabled_at : Store → Text → Option Bool
enabled_at s uri =
    if text_eq uri (codes "/redfish/v1/AccountService")
    then some s.account_service_enabled
    else none

pub set_privileges : ℕ → Role → List Text → Store → Store
set_privileges p r ps s = record s {
  heap = put s.heap p (some (role (record r { assigned_privileges = ps })));
}

module _ (J : Json) where
  open J use {Value, find_field, at_key, as_string, size, at_index}

  unfoldable pub string_at : Value → ℕ → Option Text
  string_at v i = elim (at_index v i) [ none ↦ none | some w ↦ as_string w ]

  -- The loop over `privileges` from the index `i`, with `left` rounds to go.
  unfoldable pub collect : ℕ → ℕ → Value → List Text → M (List Text)
  unfolding string_at
  collect zero i v tmp_pri = done tmp_pri
  collect (suc left) i v tmp_pri = do
    p ← json (string_at v i)
    refuse (not (check_role_privileges p)) (codes "Incorrect Privileges") status_bad_request
    collect left (suc i) v (tmp_pri ++ p ∷ [])

  unfoldable pub make_role : Bool → Option Text → Value → M Reply
  unfolding has_role_id new_role add_role
  make_role garbage header body = do
    s ← get
    refuse (not s.account_service_enabled) (codes "Account Service isn't Enabled")
        status_bad_request
    x ← current_session header
    a ← login_account x
    r ← login_role a
    refuse (not (text_eq r.id administrator)) (codes "Only Administrator Can Use")
        status_bad_request
    let role_id = (get_string J body (codes "RoleId")).1
    refuse (is_empty role_id) (codes "Need RoleId") status_bad_request
    same ← deref (first_ptr (role_at s) (has_role_id role_id) s.roles)
    refuse (not (is_end same)) (codes "RoleId is already in use") status_bad_request
    let privileges = (get_json J body (codes "Privileges")).1
    tmp_pri ← collect (size privileges) 0 privileges []
    refuse (length tmp_pri == 0) (codes "Need Correct Privileges") status_bad_request
    let n = new_role role_id garbage tmp_pri
    modify (add_role n)
    modify (resource_save_json n.odata_id)
    modify (resource_save_json odata_role_id)
    done (success_reply (resource n.odata_id) status_created)

  -- The loop of `modify_role`: what is to be added to the privileges `old`.
  pub collect_new : ℕ → ℕ → Value → List Text → List Text → M (List Text)
  unfolding string_at
  collect_new zero i v old store = done store
  collect_new (suc left) i v old store = do
    input ← json (string_at v i)
    refuse (not (check_role_privileges input)) (codes "Incorrect Previlege") status_bad_request
    collect_new left (suc i) v old (if contains old input then store else store ++ input ∷ [])

  unfoldable pub modify_role : Option Text → Value → Text → M Reply
  unfolding enabled_at set_privileges
  modify_role header body uri = do
    s ← get
    let service_id = get_parent_object_uri (get_parent_object_uri uri (codes "/")) (codes "/")
    on ← deref (enabled_at s service_id)
    refuse (not on) (codes "Account Service isn't Enabled") status_bad_request
    refuse (not (record_is_exist s uri)) (codes "No Role") status_bad_request
    x ← current_session header
    a ← login_account x
    r ← login_role a
    refuse (not (text_eq r.id administrator)) (codes "Only Administrator Can Use")
        status_bad_request
    given ← json (find_field body (codes "AssignedPrivileges"))
    refuse (not given) (codes "No Privileges") status_bad_request
    arr ← json (at_key body (codes "AssignedPrivileges"))
    p ← deref (s.g_record uri)
    target ← deref (role_at s p)
    store ← collect_new (size arr) 0 arr target.assigned_privileges []
    modify (set_privileges p target (target.assigned_privileges ++ store))
    modify (resource_save_json uri)
    done (success_reply (resource uri) status_ok)

unfoldable pub erase_member : ℕ → List ℕ → List ℕ
erase_member p [] = []
erase_member p (q ∷ qs) = if q == p then qs else q ∷ erase_member p qs

-- `delete(*iter); members.erase(iter);`, with the destructor's `g_record.erase`
pub drop_role : ℕ → Text → Store → Store
unfolding erase_member
drop_role p uri s = record s {
  heap = put s.heap p none;
  g_record = bind_uri s.g_record uri none;
  roles = erase_member p s.roles;
}

-- `if(exist) { … }`
pub remove_member : Option ℕ → Text → M (Unit {0})
unfolding drop_role
remove_member none uri = done tt
remove_member (some p) uri = do
  s ← get
  r ← deref (role_at s p)
  modify (drop_role p r.odata_id)
  modify (delete_resource uri)
  modify (resource_save_json odata_role_id)

pub set_role : ℕ → Account → Text → Option ℕ → Store → Store
set_role p a id link s = record s {
  heap = put s.heap p (some (account (record a { role = link; role_id = id })));
}

-- The body of the loop over the accounts; `read_only` may be null.
pub reassign_one : Text → Option ℕ → ℕ → Account → Bool → M (Unit {0})
unfolding set_role
reassign_one role_id read_only p a false = done tt
reassign_one role_id read_only p a true = do
  s ← get
  ro ← deref (follow (role_at s) read_only)
  modify (set_role p a ro.id read_only)
  modify (resource_save_json a.odata_id)

pub reassign : Text → Option ℕ → List ℕ → M (Unit {0})
unfolding reassign_one
reassign role_id read_only [] = done tt
reassign role_id read_only (p ∷ ps) = do
  s ← get
  a ← deref (account_at s p)
  reassign_one role_id read_only p a (text_eq a.role_id role_id)
  reassign role_id read_only ps

unfoldable pub remove_role : Option Text → Text → M Reply
unfolding has_role_id remove_member reassign
remove_role header uri = do
  s ← get
  refuse (not s.account_service_enabled) (codes "Account Service isn't Enabled") status_bad_request
  x ← current_session header
  a ← login_account x
  r ← login_role a
  refuse (not (text_eq r.id administrator)) (codes "Only Administrator Can Use") status_bad_request
  refuse (not (record_is_exist s uri)) (codes "Role does not exist") status_bad_request
  p ← deref (s.g_record uri)
  target ← deref (role_at s p)
  refuse target.is_predefined (codes "Predefined Role Cannot DELETE") status_bad_request
  found ← deref (first_ptr (role_at s) (has_role_id target.id) s.roles)
  remove_member found uri
  modify (subscript (role_uri (codes "ReadOnly")))
  t ← get
  reassign target.id (t.g_record (role_uri (codes "ReadOnly"))) t.accounts
  done (success_reply (resource odata_role_id) status_ok)
