-- ===== src/Redfish/Role/Success.antt =====
-- When a role is created.
use cmm_sdk.Common.{
  ℕ, ◌≡◌, ◌<◌, refl, Bool, true, false, not, none, some, arith, length, Option, List, [], ◌==◌,
}
use cmm_sdk.Common.Text.{Text, codes, text_eq, text_eq_iff, is_empty}
use cmm_sdk.Redfish.Json.{Json, get_string, get_json}
use cmm_sdk.Redfish.Search.{first_ptr}
use cmm_sdk.Redfish.Store.{Store, Session, Account, Role, role_at}
use cmm_sdk.Redfish.Monad.{ok}
use cmm_sdk.Redfish.Goes.{
  Succeeds, Goes-Succeeds, Goes-get, Goes-modify, Goes-done, Goes-refuse, Goes-deref, Goes-bind,
}
use cmm_sdk.Redfish.Valid.{IsValid}
use cmm_sdk.Redfish.Guard.{current_session, login_account, login_role}
use cmm_sdk.Redfish.Role.{has_role_id, administrator, collect, make_role}
use cmm_sdk.Redfish.Role.Create.{Created, make_role_lem}

not-text_eq : (s t : Text) → s ≡ t → not (text_eq s t) ≡ false
not-text_eq s t h = ground (arith, text_eq_iff s t)

not_zero : (n : ℕ) → 0 < n → (n == 0) ≡ false
not_zero n h = ground arith

module _ (J : Json) (garbage : Bool) (header : Option Text) (body : J.Value) (s : Store) where
  abbrev privileges_of : J.Value
  privileges_of = (get_json J body (codes "Privileges")).1

  -- With a valid store and the account service on, under a session whose account has the role
  -- Administrator, a body that gives an id which is not empty and not in use, and a list of
  -- privileges that the loop accepts and that is not empty, makes `make_role` succeed and add the
  -- role.
  pub make_role-Succeeds :
      (x : Session) (a : Account) (r : Role) (ps : List Text)
      → IsValid s
      → s.account_service_enabled ≡ true
      → current_session header s ≡ ok x s
      → login_account x s ≡ ok a s
      → login_role a s ≡ ok r s
      → r.id ≡ administrator
      → is_empty ((get_string J body (codes "RoleId")).1) ≡ false
      → first_ptr (role_at s) (has_role_id ((get_string J body (codes "RoleId")).1)) s.roles
        ≡ some none
      → collect J (J.size privileges_of) 0 privileges_of [] s ≡ ok ps s
      → 0 < length ps
      → Succeeds (Created J garbage header body s) (make_role J garbage header body s)
  unfolding make_role
  make_role-Succeeds x a r ps v on session account role admin named new good many =
      Goes-Succeeds s (Created J garbage header body s) (make_role J garbage header body s)
        (make_role_lem J garbage header body s v)
        (Goes-get _ s (
          Goes-refuse _ _ _ _ s (rw on refl) (
            Goes-bind _ _ s s x session (
              Goes-bind _ _ s s a account (
                Goes-bind _ _ s s r role (
                  Goes-refuse _ _ _ _ s (not-text_eq r.id administrator admin) (
                    Goes-refuse _ _ _ _ s named (
                      Goes-deref _ _ s none new (
                        Goes-refuse _ _ _ _ s refl (
                          Goes-bind _ _ s s ps good (
                            Goes-refuse _ _ _ _ s (not_zero (length ps) many) (
                              Goes-modify _ _ _
                                (Goes-modify _ _ _ (Goes-modify _ _ _ (Goes-done _ _)))))))))))))))
