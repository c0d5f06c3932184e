-- ===== src/Redfish/Session.antt =====
-- Sessions: `is_session_valid`, `get_session_odata_id_by_token` of src/resource.cpp,
-- `make_session` and `remove_session` of src/task.cpp.
pub mod Login
pub mod Keep
pub mod Success
pub mod Timer
use cmm_sdk.Common.{
  ℕ, suc, ◌+◌, ◌-◌, Bool, true, false, not, ◌&&◌, ◌||◌, Option, none, some, List, [], ◌∷◌, ◌++◌,
  ◌==◌, if◌then◌else◌,
}
use cmm_sdk.Common.Text.{Text, codes, text_eq}
use cmm_sdk.Common.Decimal.{to_string, value}
use cmm_sdk.Numset.{allocate_numset_num, delete_numset_num, allocate_session_num}
use cmm_sdk.Redfish.Json.{Json, get_string}
use cmm_sdk.Redfish.Search.{first_ptr}
use cmm_sdk.Redfish.Rules.{is_end}
use cmm_sdk.Redfish.Store.{
  Account, Session, Object, session, Store, odata_session_id, record_is_exist, put, bind_uri,
  account_at, session_at, follow, resource_save_json, delete_resource,
}
use cmm_sdk.Redfish.Monad.{
  M, ◌>>=◌, ◌>>◌, done, get, modify, deref, json, refuse, success_reply, Reply, null, resource,
  status_ok, status_created, status_bad_request,
}

unfoldable pub has_token : Text → Session → Bool
has_token token x = text_eq x.x_token token

-- The checks after the loop, on the session that it found.
unfoldable pub check_session : Store → Session → Bool
check_session s x =
    if not (record_is_exist s x.odata_id)
    then false
    else if x.remain_expires_time == 0
    then false
    else true

unfoldable pub is_session_valid : Store → Text → Option Bool
unfolding has_token check_session
is_session_valid s token = elim (first_ptr (session_at s) (has_token token) s.sessions) [
  | none ↦ none
  | some none ↦ some false
  | some (some p) ↦ elim (session_at s p) [ none ↦ none | some x ↦ some (check_session s x) ]
]

unfoldable pub get_session_odata_id_by_token : Store → Text → Option Text
unfolding has_token
get_session_odata_id_by_token s token =
    elim (first_ptr (session_at s) (has_token token) s.sessions) [
      | none ↦ none
      | some none ↦ some []
      | some (some p) ↦ elim (session_at s p) [ none ↦ none | some x ↦ some x.odata_id ]
    ]

unfoldable pub has_user_name : Text → Account → Bool
has_user_name name a = text_eq a.user_name name

abbrev pub session_uri : ℕ → Text
session_uri n = odata_session_id ++ (b'/' ∷ to_string n)

-- The constructor of `Session`, with the token that `make_session` sets.
unfoldable pub new_session : Store → ℕ → ℕ → Account → Text → Session
new_session s n p a token = record {
  odata_id = session_uri n;
  id = to_string n;
  account_id = a.odata_id;
  session_type = codes "Redfish";
  account = some p;
  remain_expires_time = s.session_timeout;
  x_token = token;
}

-- `new Session(…)` and `add_member`
unfoldable pub add_session : Session → Store → Store
add_session x s = record s {
  heap = put s.heap s.next (some (session x));
  next = suc s.next;
  g_record = bind_uri s.g_record x.odata_id (some s.next);
  sessions = s.sessions ++ s.next ∷ [];
}

pub session_reply : Text → Session → Reply
session_reply token x = record (success_reply null status_created) {
  headers = (codes "X-Auth-Token", token) ∷ (codes "Location", x.odata_id) ∷ [];
}

-- The token is what `generate_token(16)` drew. The timer that `start` begins is left out.
module _ (J : Json) where
  unfoldable pub make_session : J.Value → Text → M Reply
  unfolding has_user_name new_session add_session session_reply
  make_session body token = do
    s ← get
    refuse (not s.session_service_enabled) (codes "Session Service isn't Enabled")
        status_bad_request
    let user_name = get_string J body (codes "UserName")
    let password = get_string J body (codes "Password")
    refuse (not user_name.0 || not password.0) (codes "No UserName or Password") status_bad_request
    found ← deref (first_ptr (account_at s) (has_user_name user_name.1) s.accounts)
    refuse (is_end found) (codes "No Account using that UserName") status_bad_request
    p ← deref found
    a ← deref (account_at s p)
    refuse (not (text_eq a.password password.1)) (codes "Password does not match")
        status_bad_request
    (n, sets) ← deref (allocate_numset_num s.numsets allocate_session_num)
    let x = new_session s n p a token
    modify (λ t. add_session x (record t { numsets = sets }))
    modify (resource_save_json x.odata_id)
    modify (resource_save_json odata_session_id)
    done (session_reply token x)

-- `session->_remain_expires_time = n`
unfoldable pub set_remain : ℕ → Session → ℕ → Store → Store
set_remain p x n s = record s {
  heap = put s.heap p (some (session (record x { remain_expires_time = n })));
}

-- `token` is the header X-Auth-Token, empty if it is missing. The half second of sleep is left out.
unfoldable pub remove_session : Text → M Reply
unfolding set_remain
remove_session token = do
  s ← get
  refuse (not s.session_service_enabled) (codes "Session Service isn't Enabled") status_bad_request
  valid ← deref (is_session_valid s token)
  refuse (not valid) (codes "Unvalid Session") status_bad_request
  uri ← deref (get_session_odata_id_by_token s token)
  p ← deref (s.g_record uri)
  x ← deref (session_at s p)
  modify (set_remain p x 0)
  done (success_reply null status_ok)
