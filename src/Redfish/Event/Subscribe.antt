-- ===== src/Redfish/Event/Subscribe.antt =====
-- What `make_subscription` does, and what the new subscriber receives.
use cmm_sdk.Common.{ℕ, ◌≡◌, true, some, List, [], ◌∷◌, ◌++◌, All, ◌⊎◌}
use cmm_sdk.Common.Text.{Text, codes}
use cmm_sdk.Numset.{Numsets, allocate_subscription_num}
use cmm_sdk.Numset.Fresh.{IsFresh}
use cmm_sdk.Redfish.Json.{Json, get_string}
use cmm_sdk.Redfish.Store.{EventDestination, Store, Disk}
use cmm_sdk.Redfish.Monad.{Reply, success_reply, resource, status_created}
use cmm_sdk.Redfish.Event.{
  check_event_type, EventInfo, event_type_exist, Delivery, deliver, send_event_to_subscriber,
  add_destination,
}

abbrev pub AllTypes : List Text → Type 0
AllTypes = All (λ t. check_event_type t ≡ true)

module _ (J : Json) (body : J.Value) (s : Store) where
  -- One subscription was added; each event now goes to whom it went before, and then to the new
  -- subscriber if its types have the type of the event.
  pub record Subscribed (r : Reply) (t : Store) : Type 0 where
    pub d : EventDestination
    pub num : ℕ
    pub sets : Numsets
    pub fresh : IsFresh s.numsets allocate_subscription_num num sets
    pub state :
        (files : List Disk) × (t
          ≡ record (add_destination d (record s { numsets = sets })) { disk = files })
    pub address : d.destination ≡ (get_string J body (codes "Destination")).1
    pub types : AllTypes d.event_types
    pub served :
        (ev : EventInfo) (out : List (Delivery EventInfo))
        → send_event_to_subscriber ev s ≡ some out
        → send_event_to_subscriber ev t ≡ some (out ++ deliver ev ev.event_type d)
    pub reached :
        (ev : EventInfo)
        → event_type_exist d.event_types ev.event_type ≡ true
        → (deliver ev ev.event_type d ≡ Delivery.shoot_redfish d.destination d.context ev ∷ [])
          ⊎ (deliver ev ev.event_type d ≡ Delivery.shoot_smtp d.destination d.context ev ∷ [])
    pub reply : r ≡ success_reply (resource d.odata_id) status_created
