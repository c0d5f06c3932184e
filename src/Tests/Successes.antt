-- ===== src/Tests/Successes.antt =====
-- Requests that succeed on the store of the fixture.
use cmm_sdk.Common.{◌≡◌, ◌≤◌, refl, true, false, none, some, [], ◌∷◌, arith}
use cmm_sdk.Common.Text.{codes, text_eq, contains, is_empty}
use cmm_sdk.Common.Decimal.{to_string}
use cmm_sdk.Redfish.Json.{get_string, get_json}
use cmm_sdk.Redfish.Search.{first_ptr}
use cmm_sdk.Redfish.Store.{
  account_at, role_at, session_at, record_is_exist, odata_role_id, odata_session_id,
  odata_account_id, put, bind_uri,
}
use cmm_sdk.Redfish.Monad.{ok, ◌>>=◌, ◌>>◌, get, deref, json, refuse, done}
use cmm_sdk.Redfish.Goes.{Succeeds}
use cmm_sdk.Redfish.Session.{
  has_token, check_session, is_session_valid, get_session_odata_id_by_token, has_user_name,
  make_session,
}
use cmm_sdk.Redfish.Session.Login.{LoggedIn}
use cmm_sdk.Redfish.Session.Success.{make_session-Succeeds}
use cmm_sdk.Redfish.Guard.{is_missing, current_session, login_account, login_role}
use cmm_sdk.Redfish.Account.{has_name, field_or, names_no_role, make_account}
use cmm_sdk.Redfish.Account.Success.{make_account-Succeeds}
use cmm_sdk.Redfish.Role.{has_role_id, check_role_privileges, string_at, collect}
use cmm_sdk.Tests.Fixture.{
  text, texts, Tree, object, lookup, json_library, admin_role, root_account, root_session, server,
  server-IsValid, session_room, account_room,
}

abbrev login_body : Tree
login_body =
    object
      ((codes "UserName", text (codes "root")) ∷ (codes "Password", text (codes "secret")) ∷ [])

sessions_on : server.session_service_enabled ≡ true
unfolding server
sessions_on = refl

login_name : get_string json_library login_body (codes "UserName") ≡ (true, codes "root")
unfolding get_string lookup text_eq
login_name = refl

login_password : get_string json_library login_body (codes "Password") ≡ (true, codes "secret")
unfolding get_string lookup text_eq
login_password = refl

root_found :
    first_ptr (account_at server) (has_user_name (codes "root")) server.accounts ≡ some (some 1)
unfolding first_ptr server account_at put has_user_name text_eq
root_found = refl

root_alive : account_at server 1 ≡ some root_account
unfolding server account_at put
root_alive = refl

make_session-Succeeds_example :
    Succeeds
      (LoggedIn json_library login_body (codes "new") server)
      (make_session json_library login_body (codes "new") server)
make_session-Succeeds_example =
    make_session-Succeeds json_library login_body (codes "new") server 1 root_account server-IsValid
      session_room sessions_on login_name login_password root_found root_alive

abbrev guest_body : Tree
guest_body = object (
    (codes "UserName", text (codes "guest"))
    ∷ (codes "Password", text (codes "guests"))
    ∷ (codes "RoleId", text (codes "Night"))
    ∷ [])

accounts_on : server.account_service_enabled ≡ true
unfolding server
accounts_on = refl

guest_name : get_string json_library guest_body (codes "UserName") ≡ (true, codes "guest")
unfolding get_string lookup text_eq
guest_name = refl

guest_password : get_string json_library guest_body (codes "Password") ≡ (true, codes "guests")
unfolding get_string lookup text_eq
guest_password = refl

long_enough : server.min_password_length ≤ 6
unfolding server
long_enough = omega arith

short_enough : 6 ≤ server.max_password_length
unfolding server
short_enough = omega arith

guest_is_new : first_ptr (account_at server) (has_name (codes "guest")) server.accounts ≡ some none
unfolding first_ptr server account_at put has_name text_eq
guest_is_new = refl

role_given : json_library.find_field guest_body (codes "RoleId") ≡ some true
unfolding lookup text_eq
role_given = refl

role_asked :
    field_or json_library json_library.as_string (codes "ReadOnly") guest_body (codes "RoleId")
    ≡ some (codes "Night")
unfolding field_or lookup text_eq
role_asked = refl

role_known : names_no_role json_library server true (codes "Night") ≡ false
unfolding names_no_role record_is_exist server bind_uri text_eq odata_role_id odata_session_id
    odata_account_id to_string
role_known = refl

enabled_asked :
    field_or json_library json_library.as_bool true guest_body (codes "Enabled") ≡ some true
unfolding field_or lookup text_eq
enabled_asked = refl

make_account-Succeeds_example :
    Succeeds
      (cmm_sdk.Redfish.Account.Create.Created json_library guest_body server)
      (make_account json_library guest_body server)
make_account-Succeeds_example =
    make_account-Succeeds json_library guest_body server (codes "guest") (codes "guests")
      (codes "Night") true true server-IsValid account_room accounts_on guest_name guest_password
      long_enough short_enough guest_is_new role_given role_asked role_known enabled_asked

abbrev day_body : Tree
day_body = object (
    (codes "RoleId", text (codes "Day"))
    ∷ (codes "Privileges", texts (codes "Login" ∷ codes "ConfigureSelf" ∷ []))
    ∷ [])

old_session : current_session (some (codes "old")) server ≡ ok root_session server
unfolding current_session ◌>>=◌ ◌>>◌ get deref refuse done is_missing is_session_valid
    get_session_odata_id_by_token has_token check_session first_ptr server session_at put bind_uri
    record_is_exist text_eq odata_role_id odata_session_id odata_account_id to_string
old_session = refl

old_account : login_account root_session server ≡ ok root_account server
unfolding login_account ◌>>=◌ get deref done server account_at put
old_account = refl

old_role : login_role root_account server ≡ ok admin_role server
unfolding login_role ◌>>=◌ get deref done server role_at put
old_role = refl

day_named : is_empty ((get_string json_library day_body (codes "RoleId")).1) ≡ false
unfolding get_string lookup text_eq is_empty
day_named = refl

day_is_new :
    first_ptr
      (role_at server)
      (has_role_id ((get_string json_library day_body (codes "RoleId")).1))
      server.roles
    ≡ some none
unfolding first_ptr server role_at put has_role_id get_string lookup text_eq
day_is_new = refl

abbrev day_privileges : Tree
day_privileges = (get_json json_library day_body (codes "Privileges")).1

day_collected :
    collect json_library (json_library.size day_privileges) 0 day_privileges [] server
    ≡ ok (codes "Login" ∷ codes "ConfigureSelf" ∷ []) server
unfolding collect get_json lookup ◌>>=◌ ◌>>◌ json refuse done string_at check_role_privileges
    contains text_eq
day_collected = refl
