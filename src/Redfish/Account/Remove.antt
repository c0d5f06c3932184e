-- ===== src/Redfish/Account/Remove.antt =====
-- `remove_account` of src/task.cpp.
pub mod Dangling
use cmm_sdk.Common.{
  ℕ, Bool, true, false, not, Option, none, some, List, [], ◌∷◌, ◌==◌, leb, if◌then◌else◌,
}
use cmm_sdk.Common.Text.{Text, codes, text_eq, is_empty}
use cmm_sdk.Common.Decimal.{leading_digits, value}
use cmm_sdk.Numset.{allocate_account_num, delete_numset_num}
use cmm_sdk.Util.Names.{get_current_object_name}
use cmm_sdk.Util.Validate.Address.{int_max}
use cmm_sdk.Redfish.Search.{first_ptr}
use cmm_sdk.Redfish.Store.{
  Account, Store, odata_account_id, record_is_exist, put, bind_uri, account_at, resource_save_json,
  delete_resource,
}
use cmm_sdk.Redfish.Monad.{
  M, ◌>>=◌, ◌>>◌, done, get, modify, deref, json, refuse, success_reply, Reply, resource, status_ok,
  status_bad_request,
}
use cmm_sdk.Redfish.Role.{enabled_at, erase_member}

unfoldable pub has_id : Text → Account → Bool
has_id id a = text_eq a.id id

-- `stoi` of a text that starts with no blank and no sign; `none` is an exception.
unfoldable pub stoi_prefix : Text → Option ℕ
stoi_prefix s =
    let ds = leading_digits s in
    if is_empty ds then none else if leb (value ds) int_max then some (value ds) else none

-- `delete(*iter); members.erase(iter);`, with the destructor's `g_record.erase`
unfoldable pub drop_account : ℕ → Text → Store → Store
drop_account p uri s = record s {
  heap = put s.heap p none;
  g_record = bind_uri s.g_record uri none;
  accounts = erase_member p s.accounts;
}

unfoldable pub free_account_num : ℕ → Store → Store
free_account_num n s = record s { numsets = delete_numset_num s.numsets allocate_account_num n }

-- At `members.end()` the iterator is dereferenced all the same.
unfoldable pub remove_account : Text → Text → M Reply
remove_account uri service_uri = do
  s ← get
  on ← deref (enabled_at s service_uri)
  refuse (not on) (codes "Account Service isn't Enabled") status_bad_request
  account_id ← json (get_current_object_name uri (codes "/"))
  iter ← deref (first_ptr (account_at s) (has_id account_id) s.accounts)
  refuse (not (record_is_exist s uri)) (codes "No Account") status_bad_request
  p ← deref (s.g_record uri)
  a ← deref (account_at s p)
  id_num ← json (stoi_prefix a.id)
  modify (free_account_num id_num)
  q ← deref iter
  b ← deref (account_at s q)
  modify (drop_account q b.odata_id)
  modify (delete_resource uri)
  modify (resource_save_json odata_account_id)
  done (success_reply (resource odata_account_id) status_ok)
