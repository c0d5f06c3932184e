-- ===== src/Redfish/Guard.antt =====
-- The checks that `make_role`, `modify_role` and `remove_role` of src/task.cpp
-- share: a header X-Auth-Token, a valid session, and the role of its account.
pub mod Login
use cmm_sdk.Common.{ℕ, Bool, true, false, not, Option, none, some, List, [], ◌∷◌, ◌≡◌, refl}
use cmm_sdk.Common.Text.{Text, codes}
use cmm_sdk.Redfish.Store.{Session, Account, Role, Store, account_at, role_at, session_at, follow}
use cmm_sdk.Redfish.Session.{is_session_valid, get_session_odata_id_by_token}
use cmm_sdk.Redfish.Monad.{M, ◌>>=◌, ◌>>◌, done, get, deref, refuse, status_bad_request}

-- `headers().has("X-Auth-Token")`
unfoldable pub is_missing : Option Text → Bool
is_missing none = true
is_missing (some t) = false

-- The session that the request is sent under. `g_record[session_uri]` is null for a URI that is
-- not in the table.
unfoldable pub current_session : Option Text → M Session
unfolding is_missing
current_session header = do
  s ← get
  refuse (is_missing header) (codes "Login Required") status_bad_request
  token ← deref header
  valid ← deref (is_session_valid s token)
  refuse (not valid) (codes "Session Unvalid") status_bad_request
  uri ← deref (get_session_odata_id_by_token s token)
  p ← deref (s.g_record uri)
  x ← deref (session_at s p)
  done x

-- `session->account` and `session->account->role`
unfoldable pub login_account : Session → M Account
login_account x = do s ← get; a ← deref (follow (account_at s) x.account); done a

unfoldable pub login_role : Account → M Role
login_role a = do s ← get; r ← deref (follow (role_at s) a.role); done r
