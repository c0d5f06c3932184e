-- ===== src/Redfish/Session/Timer.antt =====
-- The life of a session after its login: `timer` of src/util.cpp, `Session::start` of
-- src/resource.cpp, and the timeout in `patch_session_service` of src/task.cpp.
pub mod Bound
pub mod Expiry
use cmm_sdk.Common.{
  ℕ, zero, suc, ◌-◌, Bool, true, false, Option, none, some, List, [], ◌∷◌, ltb, if◌then◌else◌,
}
use cmm_sdk.Common.Text.{Text, text_eq}
use cmm_sdk.Numset.{allocate_session_num, delete_numset_num}
use cmm_sdk.Redfish.Search.{first_ptr}
use cmm_sdk.Redfish.Store.{
  Session, Store, odata_session_id, put, bind_uri, session_at, resource_save_json, delete_resource,
}
use cmm_sdk.Redfish.Monad.{M, ◌>>=◌, ◌>>◌, done, get, modify, deref, json}
use cmm_sdk.Redfish.Session.{set_remain}
use cmm_sdk.Redfish.Role.{erase_member}
use cmm_sdk.Redfish.Account.Remove.{stoi_prefix}

-- One call of `timer`: `true` if it waits for another second.
unfoldable pub timer : ℕ → M Bool
timer p = do
  s ← get
  x ← deref (session_at s p)
  modify
      (if ltb 0 x.remain_expires_time then set_remain p x (x.remain_expires_time - 1) else λ t. t)
  done (ltb 0 x.remain_expires_time)

unfoldable pub has_session_id : Text → Session → Bool
has_session_id id x = text_eq x.id id

unfoldable pub drop_session : ℕ → Text → ℕ → Store → Store
drop_session p uri n s = record s {
  heap = put s.heap p none;
  g_record = bind_uri s.g_record uri none;
  sessions = erase_member p s.sessions;
  numsets = delete_numset_num s.numsets allocate_session_num n;
}

-- The block `if(exist)`; `path` was read before the session is deleted.
unfoldable pub remove_found : Option ℕ → Session → M (Unit {0})
remove_found none x = done tt
remove_found (some q) x = do
  s ← get
  id_num ← json (stoi_prefix x.id)
  y ← deref (session_at s q)
  modify (drop_session q y.odata_id id_num)
  modify (delete_resource x.odata_id)
  modify (resource_save_json odata_session_id)

-- The task's second part, behind `then`.
unfoldable pub expire : ℕ → M (Unit {0})
expire p = do
  s ← get
  x ← deref (session_at s p)
  found ← deref (first_ptr (session_at s) (has_session_id x.id) s.sessions)
  remove_found found x

-- The whole task, undisturbed. Out of fuel it would go on waiting.
unfoldable pub session_task : ℕ → ℕ → M (Unit {0})
session_task zero p = deref none
session_task (suc fuel) p = do again ← timer p; go_on again (session_task fuel p) (expire p)
  where
    go_on : Bool → M (Unit {0}) → M (Unit {0}) → M (Unit {0})
    go_on true wait end = wait
    go_on false wait end = end

-- The loop of `patch_session_service` over the sessions.
unfoldable pub cap_session : ℕ → ℕ → Session → Store → Store
cap_session limit p x s = if ltb limit x.remain_expires_time then set_remain p x limit s else s

unfoldable pub cap_sessions : ℕ → List ℕ → M (Unit {0})
cap_sessions limit [] = done tt
cap_sessions limit (p ∷ ps) = do
  s ← get
  x ← deref (session_at s p)
  modify (cap_session limit p x)
  cap_sessions limit ps

-- `if(get_value_from_json_key(_jv, "SessionTimeout", change_timeout)) { … }`
unfoldable pub patch_session_timeout : ℕ → M (Unit {0})
patch_session_timeout limit = do
  modify (λ s. record s { session_timeout = limit })
  s ← get
  cap_sessions limit s.sessions
