-- ===== src/Redfish/Session/Success.antt =====
-- When a login succeeds.
use cmm_sdk.Common.{ℕ, ◌≡◌, refl, true, false, not, some, arith}
use cmm_sdk.Common.Text.{Text, codes, text_eq, text_eq_iff}
use cmm_sdk.Numset.{allocate_session_num}
use cmm_sdk.Numset.Fresh.{allocate_total}
use cmm_sdk.Redfish.Json.{Json, get_string}
use cmm_sdk.Redfish.Search.{first_ptr}
use cmm_sdk.Redfish.Store.{Account, Store, account_at}
use cmm_sdk.Redfish.Goes.{
  Succeeds, Goes-Succeeds, Goes-get, Goes-modify, Goes-done, Goes-refuse, Goes-deref,
}
use cmm_sdk.Redfish.Valid.{IsValid, HasRoom}
use cmm_sdk.Redfish.Session.{has_user_name, make_session}
use cmm_sdk.Redfish.Session.Login.{LoggedIn, make_session_lem}

module _ (J : Json) (body : J.Value) (token : Text) (s : Store) where
  -- With a valid store, a free session number and the session service on, a body that gives the name
  -- of a member account, the first with that name, and its password logs in: `make_session` succeeds
  -- and adds exactly one session of a member account with that name and password.
  pub make_session-Succeeds :
      (p : ℕ) (a : Account)
      → IsValid s
      → HasRoom s.numsets allocate_session_num
      → s.session_service_enabled ≡ true
      → get_string J body (codes "UserName") ≡ (true, a.user_name)
      → get_string J body (codes "Password") ≡ (true, a.password)
      → first_ptr (account_at s) (has_user_name a.user_name) s.accounts ≡ some (some p)
      → account_at s p ≡ some a
      → Succeeds (LoggedIn J body token s) (make_session J body token s)
  unfolding make_session
  make_session-Succeeds p a v room on named passed found alive =
      let (n, sets, got, fresh, _) = allocate_total s.numsets allocate_session_num room.0 room.1 in
      Goes-Succeeds s (LoggedIn J body token s) (make_session J body token s)
        (make_session_lem J body token s v room)
        (Goes-get _ s (
          Goes-refuse _ _ _ _ s (rw on refl) (
            Goes-refuse _ _ _ _ s (rw (named, passed) refl) (
              Goes-deref _ _ s (some p) (rw named found) (
                Goes-refuse _ _ _ _ s refl (
                  Goes-deref _ _ s p refl (
                    Goes-deref _ _ s a alive (
                      Goes-refuse _ _ _ _ s (right a.password passed) (
                        Goes-deref _ _ s (n, sets) got
                          (Goes-modify _ _ _
                            (Goes-modify _ _ _ (Goes-modify _ _ _ (Goes-done _ _)))))))))))))
    where
      right :
          (w : Text)
          → get_string J body (codes "Password") ≡ (true, w)
          → not (text_eq w (get_string J body (codes "Password")).1) ≡ false
      right w e = rw e (ground (arith, text_eq_iff w w))
