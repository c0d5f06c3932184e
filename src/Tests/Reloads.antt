-- ===== src/Tests/Reloads.antt =====
-- A restart of the server of the fixture.
use cmm_sdk.Common.{◌≡◌, ◌≢◌, refl, none, some, [], ◌∷◌, arith, All, inl}
use cmm_sdk.Common.Text.{codes, text_eq, is_prefix, rfind, is_empty}
use cmm_sdk.Common.Decimal.{to_string, leading_digits, value}
use cmm_sdk.Numset.{
  Numsets, update, init_numset, insert_numset_num, allocate_numset_num, allocate_below, scan,
  take_num, uint_max, allocate_session_num,
}
use cmm_sdk.Numset.Sets.{mem, insert}
use cmm_sdk.Util.Names.{get_current_object_name, get_parent_object_uri, substr_from}
use cmm_sdk.Redfish.Store.{
  Account, Session, Object, Store, odata_account_id, odata_role_id, odata_session_id, put, bind_uri,
}
use cmm_sdk.Redfish.Account.Remove.{stoi_prefix}
use cmm_sdk.Redfish.Valid.{uri_of}
use cmm_sdk.Redfish.Reload.{
  dependency_injection, inject_all, connect_session, add_member, insert_name,
}
use cmm_sdk.Redfish.Reload.Connect.{Loaded, Connected}
use cmm_sdk.Redfish.Reload.Restart.{inject_all-Connected, new_session_uri}
use cmm_sdk.Tests.Fixture.{custom_role, root_account, root_session, server}

abbrev read_account : Account
read_account = record root_account { role = none }

abbrev read_session : Session
read_session = record root_session { account = none; remain_expires_time = 0 }

-- What stands in memory when the files are read, before anything is connected.
unfoldable restarted : Store
unfolding put server init_numset
restarted = record server {
  heap =
      put (put server.heap 1 (some (Object.account read_account))) 2
        (some (Object.session read_session));
  accounts = [];
  roles = [];
  sessions = [];
  numsets = init_numset;
}

session-Loaded : Loaded restarted 2
unfolding restarted put server bind_uri text_eq odata_session_id odata_account_id odata_role_id
    to_string
session-Loaded = (Object.session read_session, refl, (1, (refl, omega arith), (1, refl)))

account-Loaded : Loaded restarted 1
unfolding restarted put server bind_uri text_eq odata_session_id odata_account_id odata_role_id
    to_string
account-Loaded = (Object.account read_account, refl, (1, (refl, omega arith), (0, refl)))

role-Loaded : Loaded restarted 3
unfolding restarted put server odata_role_id
role-Loaded = (Object.role custom_role, refl, (codes "Night", refl, ground arith))

inject_all-Connected_example :
    (t : Store) × (inject_all (2 ∷ 1 ∷ 3 ∷ []) restarted ≡ some t)
    × All (Connected t) (2 ∷ 1 ∷ 3 ∷ [])
inject_all-Connected_example =
    inject_all-Connected (2 ∷ 1 ∷ 3 ∷ []) restarted
      (session-Loaded, (account-Loaded, (role-Loaded, tt)))

abbrev connected_session : Session
connected_session = record read_session { account = some 1; remain_expires_time = 300 }

unfoldable reconnected : Store
unfolding restarted put insert_numset_num
reconnected = record restarted {
  heap = put restarted.heap 2 (some (Object.session connected_session));
  sessions = 2 ∷ [];
  numsets = insert_numset_num restarted.numsets allocate_session_num 1;
}

injected_session : inject_all (2 ∷ []) restarted ≡ some reconnected
unfolding inject_all dependency_injection connect_session add_member insert_name stoi_prefix
    reconnected restarted put server bind_uri text_eq odata_session_id odata_account_id
    odata_role_id to_string get_current_object_name get_parent_object_uri substr_from rfind
    is_prefix leading_digits value is_empty insert_numset_num
injected_session = refl

abbrev next_numbers : Numsets
next_numbers = take_num reconnected.numsets allocate_session_num 2

second_number :
    allocate_numset_num reconnected.numsets allocate_session_num ≡ some (2, next_numbers)
unfolding allocate_numset_num allocate_below scan uint_max reconnected restarted insert_numset_num
    init_numset update insert mem
second_number = refl

new_session_uri_example : connected_session.odata_id ≢ uri_of odata_session_id 2
unfolding reconnected put
new_session_uri_example =
    new_session_uri (2 ∷ []) restarted reconnected 2 connected_session 2 next_numbers
      (session-Loaded, tt) injected_session (inl refl) refl second_number
