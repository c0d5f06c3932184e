-- ===== src/Tests/Events.antt =====
-- Subscriptions made and removed.
use cmm_sdk.Common.{◌≡◌, refl, some, [], ◌∷◌}
use cmm_sdk.Common.Text.{codes, text_eq}
use cmm_sdk.Common.Decimal.{to_string}
use cmm_sdk.Util.Names.{get_current_object_name}
use cmm_sdk.Redfish.Search.{first_ptr}
use cmm_sdk.Redfish.Store.{EventDestination, Store, destination_at, put, odata_event_destination_id}
use cmm_sdk.Redfish.Monad.{Ends}
use cmm_sdk.Redfish.Event.{
  new_destination, add_destination, has_destination_id, remove_subscription,
}
use cmm_sdk.Redfish.Event.Unsubscribe.{Unsubscribed, remove_subscription_lem}
use cmm_sdk.Tests.Fixture.{text, Tree, object, server, first_number}

abbrev subscription_body : Tree
subscription_body = object (
    (codes "Destination", text (codes "http://10.0.0.1/events"))
    ∷ (codes "Protocol", text (codes "Redfish"))
    ∷ (codes "SubscriptionType", text (codes "RedfishEvent"))
    ∷ [])

abbrev listener : EventDestination
unfolding new_destination
listener =
    new_destination 1 (codes "http://10.0.0.1/events") (codes "Redfish") (codes "cmm")
      (codes "RedfishEvent") (codes "SuspendRetries") (codes "Alert" ∷ [])

abbrev watched : Store
watched = add_destination listener server

listener_last : get_current_object_name listener.odata_id (codes "/") ≡ some listener.id
unfolding get_current_object_name new_destination odata_event_destination_id to_string
listener_last = refl

listener_first :
    first_ptr (destination_at watched) (has_destination_id listener.id) watched.subscriptions
    ≡ some (some 4)
unfolding first_ptr server add_destination destination_at put has_destination_id text_eq
    new_destination to_string
listener_first = refl

listener_alive : destination_at watched 4 ≡ some listener
unfolding server add_destination destination_at put
listener_alive = refl

remove_subscription_lem_example :
    Ends watched
      (Unsubscribed watched listener.odata_id 4 listener 1)
      (remove_subscription listener.odata_id watched)
unfolding listener to_string
remove_subscription_lem_example =
    remove_subscription_lem watched listener.odata_id 4 listener 1 listener_last listener_first
      listener_alive refl first_number
