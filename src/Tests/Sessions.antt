-- ===== src/Tests/Sessions.antt =====
-- How sessions end, on the store of the fixture.
use cmm_sdk.Common.{◌≡◌, refl, true, false, some, arith}
use cmm_sdk.Common.Text.{codes, text_eq}
use cmm_sdk.Redfish.Search.{first_ptr}
use cmm_sdk.Redfish.Store.{Store, session_at, put}
use cmm_sdk.Redfish.Monad.{ok, ◌>>=◌, ◌>>◌, get, deref, modify, done, Ends}
use cmm_sdk.Redfish.Session.{is_session_valid, set_remain, remove_session}
use cmm_sdk.Redfish.Session.Timer.{timer, has_session_id}
use cmm_sdk.Redfish.Session.Timer.Bound.{Capped, Step, Reach, Reach-Capped}
use cmm_sdk.Redfish.Session.Timer.Expiry.{Course, remove_session_lem, session_task_ends}
use cmm_sdk.Tests.Fixture.{root_session, server, first_number, server-IsValid}

abbrev after_tick : Store
after_tick = set_remain 2 root_session 299 server

root_ticks : timer 2 server ≡ ok true after_tick
unfolding timer server session_at put set_remain ◌>>=◌ ◌>>◌ get deref modify done
root_ticks = refl

server-Capped : Capped server
unfolding server session_at put
server-Capped = ((λ x e. ground (arith, e)), tt)

Reach-Capped_example : Capped after_tick
Reach-Capped_example =
    Reach-Capped server server-Capped (Reach.next Reach.here (Step.ticks 2 true root_ticks))

remove_session_lem_example :
    Ends server
      (λ r t. is_session_valid t (codes "old") ≡ some false)
      (remove_session (codes "old") server)
remove_session_lem_example = remove_session_lem server (codes "old") server-IsValid

root_waits : session_at server 2 ≡ some root_session
unfolding server session_at put
root_waits = refl

root_first :
    first_ptr (session_at server) (has_session_id root_session.id) server.sessions ≡ some (some 2)
unfolding first_ptr server session_at put has_session_id text_eq
root_first = refl

session_task_ends_example : Course root_session.remain_expires_time 2 1 root_session server
session_task_ends_example =
    session_task_ends server 2 1 root_session root_waits root_first first_number
