-- ===== src/Tests/Handlers.antt =====
-- The handlers on the store of the fixture.
use cmm_sdk.Common.{◌≡◌, ◌≢◌, refl, true, false, some, [], ◌∷◌, ◌++◌, arith, All, ◌<◌}
use cmm_sdk.Common.Decimal.{to_string}
use cmm_sdk.Common.Text.{IsFree, codes, text_eq}
use cmm_sdk.Redfish.Search.{first_ptr}
use cmm_sdk.Redfish.Store.{
  Session, account_at, role_at, session_at, odata_role_id, odata_session_id, odata_account_id, put,
  bind_uri,
}
use cmm_sdk.Redfish.Monad.{Ends}
use cmm_sdk.Redfish.Valid.{IsValid}
use cmm_sdk.Redfish.Session.{is_session_valid, make_session}
use cmm_sdk.Redfish.Session.Login.{LoggedIn, make_session_lem}
use cmm_sdk.Redfish.Session.Keep.{make_session-IsValid, make_session-is_session_valid}
use cmm_sdk.Redfish.Account.{make_account}
use cmm_sdk.Redfish.Account.Create.{make_account_lem}
use cmm_sdk.Redfish.Role.{make_role, modify_role, remove_role, role_uri, has_role_id}
use cmm_sdk.Redfish.Role.Create.{make_role_lem}
use cmm_sdk.Redfish.Role.Change.{modify_role_lem}
use cmm_sdk.Redfish.Role.Orphans.{Orphaned, NoneHas, remove_role_orphans}
use cmm_sdk.Tests.Fixture.{
  text, texts, Tree, object, json_library, custom_role, root_account, server, server-IsValid,
  session_room, account_room,
}

abbrev login_body : Tree
login_body =
    object
      ((codes "UserName", text (codes "root")) ∷ (codes "Password", text (codes "secret")) ∷ [])

make_session_lem_example :
    Ends server
      (LoggedIn json_library login_body (codes "new") server)
      (make_session json_library login_body (codes "new") server)
make_session_lem_example =
    make_session_lem json_library login_body (codes "new") server server-IsValid session_room

make_session-IsValid_example :
    Ends server (λ r t. IsValid t) (make_session json_library login_body (codes "new") server)
make_session-IsValid_example =
    make_session-IsValid json_library login_body (codes "new") server server-IsValid session_room

tokens_differ :
    All
      (λ p. (y : Session) → session_at server p ≡ some y → y.x_token ≢ codes "new")
      server.sessions
unfolding server session_at put
tokens_differ = (λ y h. ground arith, tt)

sessions_last : 0 < server.session_timeout
unfolding server
sessions_last = omega arith

make_session-is_session_valid_example :
    Ends server
      (λ r t. is_session_valid t (codes "new") ≡ some true)
      (make_session json_library login_body (codes "new") server)
make_session-is_session_valid_example =
    make_session-is_session_valid json_library login_body (codes "new") server server-IsValid
      session_room sessions_last tokens_differ

abbrev account_body : Tree
account_body = object (
    (codes "UserName", text (codes "guest"))
    ∷ (codes "Password", text (codes "guests"))
    ∷ (codes "RoleId", text (codes "Night"))
    ∷ [])

make_account_lem_example :
    Ends server
      (cmm_sdk.Redfish.Account.Create.Created json_library account_body server)
      (make_account json_library account_body server)
make_account_lem_example =
    make_account_lem json_library account_body server server-IsValid account_room

abbrev role_body : Tree
role_body = object (
    (codes "RoleId", text (codes "Day"))
    ∷ (codes "Privileges", texts (codes "Login" ∷ []))
    ∷ (codes "AssignedPrivileges", texts (codes "Login" ∷ codes "ConfigureSelf" ∷ []))
    ∷ [])

make_role_lem_example :
    Ends server
      (cmm_sdk.Redfish.Role.Create.Created json_library false (some (codes "old")) role_body server)
      (make_role json_library false (some (codes "old")) role_body server)
make_role_lem_example =
    make_role_lem json_library false (some (codes "old")) role_body server server-IsValid

night-IsFree : IsFree b'/' (codes "Night")
night-IsFree = omega arith

modify_role_lem_example :
    Ends server
      (cmm_sdk.Redfish.Role.Change.Changed json_library
        (some (codes "old"))
        role_body
        (codes "Night")
        server)
      (modify_role json_library (some (codes "old")) role_body (role_uri (codes "Night")) server)
modify_role_lem_example =
    modify_role_lem json_library (some (codes "old")) role_body (codes "Night") server
      server-IsValid night-IsFree

night_alive : role_at server 3 ≡ some custom_role
unfolding server role_at put
night_alive = refl

night_in_table : server.g_record (odata_role_id ++ codes "/Night") ≡ some 3
unfolding server bind_uri text_eq odata_role_id odata_session_id odata_account_id to_string
night_in_table = refl

night_found : first_ptr (role_at server) (has_role_id custom_role.id) server.roles ≡ some (some 3)
unfolding server role_at put has_role_id text_eq first_ptr
night_found = refl

no_short_id : NoneHas server (codes "Night") server.accounts
unfolding server account_at put odata_role_id
no_short_id = ((root_account, refl, λ e. ground arith), tt)

remove_role_orphans_example :
    Ends server
      (Orphaned server 3 custom_role night_alive (some (codes "old")))
      (remove_role (some (codes "old")) (odata_role_id ++ codes "/Night") server)
remove_role_orphans_example =
    remove_role_orphans server 3 custom_role night_alive (some (codes "old"))
      (odata_role_id ++ codes "/Night") server-IsValid night_in_table night_found no_short_id
