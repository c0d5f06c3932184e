-- ===== src/Redfish/Event.antt =====
-- Event subscriptions: src/eventservice.cpp, `make_subscription` and `remove_subscription` of
-- src/task.cpp.
pub mod Send
pub mod Subscribe
pub mod Unsubscribe
use cmm_sdk.Common.{
  ℕ, zero, suc, ◌+◌, Bool, true, false, not, ◌&&◌, ◌||◌, Option, none, some, List, [], ◌∷◌, ◌++◌,
  ◌==◌, if◌then◌else◌, length,
}
use cmm_sdk.Common.Text.{Text, codes, text_eq, contains}
use cmm_sdk.Common.Decimal.{to_string}
use cmm_sdk.Numset.{allocate_subscription_num, allocate_numset_num, delete_numset_num}
use cmm_sdk.Util.Names.{get_current_object_name}
use cmm_sdk.Redfish.Json.{Json, get_string, get_json}
use cmm_sdk.Redfish.Search.{first_ptr}
use cmm_sdk.Redfish.Store.{
  EventDestination, event_destination, Store, odata_event_destination_id, record_is_exist, put,
  bind_uri, destination_at, resource_save_json, delete_resource,
}
use cmm_sdk.Redfish.Monad.{
  M, ◌>>=◌, ◌>>◌, done, get, modify, deref, json, refuse, success_reply, Reply, null, resource,
  status_ok, status_created, status_bad_request,
}
use cmm_sdk.Redfish.Role.{erase_member, string_at}
use cmm_sdk.Redfish.Account.Remove.{stoi_prefix}

unfoldable pub check_protocol : Text → Bool
check_protocol p = text_eq p (codes "Redfish") || text_eq p (codes "SMTP")

unfoldable pub check_policy : Text → Bool
check_policy p =
    text_eq p (codes "RetryForever")
    || (text_eq p (codes "SuspendRetries") || text_eq p (codes "TerminateAfterRetries"))

unfoldable pub check_subscription_type : Text → Bool
check_subscription_type t = text_eq t (codes "RedfishEvent") || text_eq t (codes "OEM")

unfoldable pub check_event_type : Text → Bool
check_event_type t =
    text_eq t (codes "Alert")
    || (text_eq t (codes "ResourceAdded")
        || (text_eq t (codes "ResourceRemoved")
            || (text_eq t (codes "ResourceUpdated") || text_eq t (codes "StatusChange"))))

pub record Message : Type 0 where
  pub id : Text
  pub message : Text
  pub severity : Text
  pub message_args : List Text
  pub resolution : Text

-- `member_id`, which nothing here sets, is left out.
pub record EventInfo : Type 0 where
  pub event_id : Text
  pub event_timestamp : Text
  pub event_type : Text
  pub message : Message

-- Without the description and the types of the parameters, which no search reads.
pub record RegistryMessage : Type 0 where
  pub pattern : Text
  pub message : Text
  pub severity : Text
  pub number_of_args : ℕ
  pub resolution : Text

-- The loop over the registry; with a wrong number of arguments the message has none.
unfoldable pub fill_message : List RegistryMessage → Text → List Text → Message
fill_message [] msg_id args = record {
  id = msg_id;
  message = [];
  severity = [];
  message_args = [];
  resolution = [];
}
fill_message (m ∷ ms) msg_id args =
    let rest = fill_message ms msg_id args in
    if text_eq m.pattern msg_id
    then record {
      id = msg_id;
      message = m.message;
      severity = m.severity;
      message_args = if m.number_of_args == length args then args else [];
      resolution = m.resolution;
    }
    else rest

-- `now` is what `currentDateTime` returns.
unfoldable pub generate_event_info :
    List RegistryMessage → Text → Text → Text → Text → List Text → EventInfo
generate_event_info registry now event_id event_type msg_id args = record {
  event_id = event_id;
  event_timestamp = now;
  event_type = event_type;
  message = fill_message registry msg_id args;
}

-- `event_type_exist`
unfoldable pub event_type_exist : List Text → Text → Bool
event_type_exist [] type = false
event_type_exist (t ∷ ts) type =
    let rest = event_type_exist ts type in if text_eq type t then true else rest

-- What is sent: the address, the context, and the event or the SEL.
pub data Delivery (E : Type 0) : Type 0 where
  shoot_redfish shoot_smtp : Text → Text → E → Delivery E

module _ {E : Type 0} where
  -- The body of the loop, for one subscriber.
  unfoldable pub deliver : E → Text → EventDestination → List (Delivery E)
  deliver ev type ed =
      if not (text_eq ed.state (codes "Enabled"))
      then []
      else if not (event_type_exist ed.event_types type)
      then []
      else if text_eq ed.protocol (codes "Redfish")
      then Delivery.shoot_redfish ed.destination ed.context ev ∷ []
      else if text_eq ed.protocol (codes "SMTP")
      then Delivery.shoot_smtp ed.destination ed.context ev ∷ []
      else []

  -- The loop over the members; `none`: a member is not alive. The overload for SEL sends no context.
  unfoldable pub send_loop : E → Text → Store → List ℕ → Option (List (Delivery E))
  send_loop ev type s [] = some []
  send_loop ev type s (p ∷ ps) =
      let rest = send_loop ev type s ps in
      elim (destination_at s p) [
        | none ↦ none
        | some ed ↦ elim rest [ none ↦ none | some ds ↦ some (deliver ev type ed ++ ds) ]
      ]

unfoldable pub send_event_to_subscriber : EventInfo → Store → Option (List (Delivery EventInfo))
send_event_to_subscriber ev s = send_loop ev ev.event_type s s.subscriptions

unfoldable pub new_destination : ℕ → Text → Text → Text → Text → Text → List Text → EventDestination
new_destination n destination protocol context subs_type policy event_types = record {
  odata_id = odata_event_destination_id ++ (b'/' ∷ to_string n);
  name = codes "Event Subscription";
  id = to_string n;
  destination = destination;
  subscription_type = subs_type;
  delivery_retry_policy = policy;
  event_types = event_types;
  protocol = protocol;
  context = context;
  state = codes "Enabled";
  health = codes "OK";
}

unfoldable pub add_destination : EventDestination → Store → Store
add_destination d s = record s {
  heap = put s.heap s.next (some (event_destination d));
  next = suc s.next;
  g_record = bind_uri s.g_record d.odata_id (some s.next);
  subscriptions = s.subscriptions ++ s.next ∷ [];
}

module _ (J : Json) where
  open J use {Value, size}

  -- The loop over `EventTypes`; a field that is missing has no elements.
  unfoldable pub collect_types : ℕ → ℕ → Value → List Text → M (List Text)
  collect_types zero i v event_types = done event_types
  collect_types (suc left) i v event_types = do
    et ← json (string_at J v i)
    refuse (not (check_event_type et)) (codes "Not Supported EventType : " ++ et) status_bad_request
    collect_types left (suc i) v (event_types ++ et ∷ [])

  unfoldable pub make_subscription : Value → M Reply
  make_subscription body = do
    let destination = get_string J body (codes "Destination")
    refuse (not destination.0) (codes "Need Destination in Request Body") status_bad_request
    let protocol = get_string J body (codes "Protocol")
    refuse (protocol.0 && not (check_protocol protocol.1))
        (codes "Not Supported Protocol : " ++ protocol.1) status_bad_request
    refuse (not protocol.0) (codes "Need Protocol in Request Body") status_bad_request
    let context = get_string J body (codes "Context")
    let policy = get_string J body (codes "DeliveryRetryPolicy")
    refuse (policy.0 && not (check_policy policy.1))
        (codes "Not Supported DeliveryRetryPolicy : " ++ policy.1) status_bad_request
    let subs_type = get_string J body (codes "SubscriptionType")
    refuse (subs_type.0 && not (check_subscription_type subs_type.1))
        (codes "Not Supported SubscriptionType : " ++ subs_type.1) status_bad_request
    refuse (not subs_type.0) (codes "Need SubscriptionType in Request Body") status_bad_request
    let types = get_json J body (codes "EventTypes")
    event_types ← collect_types (if types.0 then size types.1 else 0) 0 types.1 []
    s ← get
    (n, sets) ← deref (allocate_numset_num s.numsets allocate_subscription_num)
    let d =
        new_destination n destination.1 protocol.1 (if context.0 then context.1 else []) subs_type.1
          (if policy.0 then policy.1 else codes "SuspendRetries") event_types
    modify (λ t. add_destination d (record t { numsets = sets }))
    modify (resource_save_json d.odata_id)
    modify (resource_save_json odata_event_destination_id)
    done (success_reply (resource d.odata_id) status_created)

unfoldable pub has_destination_id : Text → EventDestination → Bool
has_destination_id id d = text_eq d.id id

-- `delete(*iter); members.erase(iter);`, with the destructor's `g_record.erase`
unfoldable pub drop_destination : ℕ → Text → Store → Store
drop_destination p uri s = record s {
  heap = put s.heap p none;
  g_record = bind_uri s.g_record uri none;
  subscriptions = erase_member p s.subscriptions;
}

unfoldable pub free_subscription_num : ℕ → Store → Store
free_subscription_num n s = record s {
  numsets = delete_numset_num s.numsets allocate_subscription_num n;
}

-- At `members.end()` the iterator is dereferenced all the same.
unfoldable pub remove_subscription : Text → M Reply
remove_subscription uri = do
  s ← get
  refuse (not (record_is_exist s uri)) (codes "No Subscription") status_bad_request
  name ← json (get_current_object_name uri (codes "/"))
  iter ← deref (first_ptr (destination_at s) (has_destination_id name) s.subscriptions)
  id_num ← json (stoi_prefix name)
  modify (free_subscription_num id_num)
  p ← deref iter
  d ← deref (destination_at s p)
  modify (drop_destination p d.odata_id)
  modify (delete_resource uri)
  modify (resource_save_json odata_event_destination_id)
  done (success_reply null status_ok)
