-- ===== src/Redfish/Account/Success.antt =====
-- When an account is created.
use cmm_sdk.Common.{ℕ, ◌≡◌, ◌≤◌, refl, Bool, true, false, none, some, arith, length, ltb}
use cmm_sdk.Common.Text.{Text, codes}
use cmm_sdk.Numset.{allocate_account_num}
use cmm_sdk.Numset.Fresh.{allocate_total}
use cmm_sdk.Redfish.Json.{Json, get_string}
use cmm_sdk.Redfish.Search.{first_ptr}
use cmm_sdk.Redfish.Store.{Store, account_at}
use cmm_sdk.Redfish.Goes.{
  Succeeds, Goes-Succeeds, Goes-get, Goes-modify, Goes-done, Goes-refuse, Goes-deref, Goes-json,
}
use cmm_sdk.Redfish.Valid.{IsValid, HasRoom}
use cmm_sdk.Redfish.Account.{has_name, field_or, names_no_role, make_account}
use cmm_sdk.Redfish.Account.Create.{Created, role_link_total, make_account_lem}

at_most : (m n : ℕ) → m ≤ n → ltb n m ≡ false
at_most m n h = ground (arith, h)

module _ (J : Json) (body : J.Value) (s : Store) where
  -- With a valid store, a free account number and the account service on, a body that gives a name
  -- which no member account has, a password of allowed length and, if any, the id of a role that
  -- exists makes `make_account` succeed and add one account with that name and password.
  pub make_account-Succeeds :
      (name pass role_id : Text) (given enabled : Bool)
      → IsValid s
      → HasRoom s.numsets allocate_account_num
      → s.account_service_enabled ≡ true
      → get_string J body (codes "UserName") ≡ (true, name)
      → get_string J body (codes "Password") ≡ (true, pass)
      → s.min_password_length ≤ length pass
      → length pass ≤ s.max_password_length
      → first_ptr (account_at s) (has_name name) s.accounts ≡ some none
      → J.find_field body (codes "RoleId") ≡ some given
      → field_or J J.as_string (codes "ReadOnly") body (codes "RoleId") ≡ some role_id
      → names_no_role J s given role_id ≡ false
      → field_or J J.as_bool true body (codes "Enabled") ≡ some enabled
      → Succeeds (Created J body s) (make_account J body s)
  unfolding make_account
  make_account-Succeeds name pass role_id given enabled v room on named passed long short new asked
        role_asked known enabled_asked =
      let (n, sets, got, fresh, _) = allocate_total s.numsets allocate_account_num room.0 room.1 in
      let (link, linked, _) = role_link_total s role_id v in
      Goes-Succeeds s (Created J body s) (make_account J body s) (make_account_lem J body s v room)
        (Goes-get _ s (
          Goes-refuse _ _ _ _ s (rw on refl) (
            Goes-refuse _ _ _ _ s (rw (named, passed) refl) (
              Goes-refuse _ _ _ _ s (rw passed (at_most _ _ long)) (
                Goes-refuse _ _ _ _ s (rw passed (at_most _ _ short)) (
                  Goes-deref _ _ s none (rw named new) (
                    Goes-refuse _ _ _ _ s refl (
                      Goes-json _ _ s given asked (
                        Goes-json _ _ s role_id role_asked (
                          Goes-refuse _ _ _ _ s known (
                            Goes-json _ _ s enabled enabled_asked (
                              Goes-deref _ _ s (n, sets) got
                                (Goes-deref _ _ s link linked (
                                  Goes-modify _ _ _ (
                                    Goes-modify _ _ _
                                      (Goes-modify _ _ _ (Goes-done _ _)))))))))))))))))
