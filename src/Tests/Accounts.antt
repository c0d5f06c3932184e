-- ===== src/Tests/Accounts.antt =====
-- Accounts changed and removed, on the store of the fixture.
use cmm_sdk.Common.{ℕ, ◌≡◌, refl, sym, subst, ◌∙◌, some_inj, true, some, [], ◌∷◌, ◌++◌}
use cmm_sdk.Common.Text.{Text, codes, text_eq}
use cmm_sdk.Util.Names.{get_current_object_name}
use cmm_sdk.Redfish.Search.{first_ptr}
use cmm_sdk.Redfish.Store.{Account, account_at, put, bind_uri, odata_account_id}
use cmm_sdk.Redfish.Monad.{Ends}
use cmm_sdk.Redfish.Role.{enabled_at}
use cmm_sdk.Redfish.Account.Patch.{modify_account}
use cmm_sdk.Redfish.Account.Patch.Permitted.{Patched, modify_account_lem}
use cmm_sdk.Redfish.Account.Remove.{has_id, remove_account}
use cmm_sdk.Redfish.Account.Remove.Dangling.{Removed, remove_account_dangles}
use cmm_sdk.Tests.Fixture.{
  text, Tree, object, json_library, root_account, server, first_number, server-IsValid,
}

abbrev root_uri : Text
root_uri = odata_account_id ++ codes "/1"

abbrev new_password : Tree
new_password = object ((codes "Password", text (codes "secrets")) ∷ [])

root_listed : server.g_record root_uri ≡ some 1
unfolding server bind_uri text_eq odata_account_id
root_listed = refl

root_alive : account_at server 1 ≡ some root_account
unfolding server account_at put
root_alive = refl

root_only :
    (p : ℕ) → server.g_record root_uri ≡ some p → (old : Account) × (account_at server p ≡ some old)
root_only p h =
    let same : 1 ≡ p = some_inj (sym root_listed ∙ h) in
    (root_account, subst (λ k. account_at server k ≡ some root_account) same root_alive)

modify_account_lem_example :
    Ends server
      (Patched json_library (some (codes "old")) new_password root_uri server)
      (modify_account json_library (some (codes "old")) new_password root_uri server)
modify_account_lem_example =
    modify_account_lem json_library (some (codes "old")) new_password root_uri server server-IsValid
      root_only

service_on : enabled_at server (codes "/redfish/v1/AccountService") ≡ some true
unfolding server enabled_at text_eq
service_on = refl

root_last : get_current_object_name root_uri (codes "/") ≡ some root_account.id
unfolding get_current_object_name odata_account_id
root_last = refl

root_first : first_ptr (account_at server) (has_id root_account.id) server.accounts ≡ some (some 1)
unfolding first_ptr server account_at put has_id text_eq
root_first = refl

remove_account_dangles_example :
    Ends server
      (Removed server root_uri 1 root_account 1)
      (remove_account root_uri (codes "/redfish/v1/AccountService") server)
remove_account_dangles_example =
    remove_account_dangles server root_uri 1 root_account 1 (codes "/redfish/v1/AccountService")
      true service_on root_last root_first root_listed root_alive refl first_number
