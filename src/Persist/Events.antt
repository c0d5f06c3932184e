-- ===== src/Persist/Events.antt =====
-- `get_json` and `load_json` of subscriptions and the event service.
use cmm_sdk.Common.{ℕ, ◌<◌, ◌≡◌, refl, Bool, true, false, Option, some, List, [], ◌∷◌, ◌++◌}
use cmm_sdk.Common.Text.{Text, codes, text_eq}
use cmm_sdk.Persist.{Node, Fields, Hop, Steps, Library, IsLawful, make, perform, fields, ◌▸◌}
use cmm_sdk.Persist.Reads.{run, last_node, follow_node, node_at, last_field, texts_of, Fits}
use cmm_sdk.Persist.Correct.{perform-make}
use cmm_sdk.Persist.Base.{
  Resource, resource_json, load_resource, atoi8-to_string, link, Status, status_json, load_status,
  strings, texts_of-strings, Actions, action_info,
}

pub record EventDestination : Type 0 where
  pub base : Resource
  pub id : Text
  pub destination : Text
  pub subscription_type : Text
  pub delivery_retry_policy : Text
  pub event_types : List Text
  pub protocol : Text
  pub context : Text
  pub status : Status

-- `EventDestination::get_json`
unfoldable pub event_destination_json : EventDestination → Node
event_destination_json r = Node.object (
    resource_json r.base (
      fields
        ((codes "Id", Node.string r.id)
          ∷ (codes "Destination", Node.string r.destination)
          ∷ (codes "SubscriptionType", Node.string r.subscription_type)
          ∷ (codes "DeliveryRetryPolicy", Node.string r.delivery_retry_policy)
          ∷ (codes "Context", Node.string r.context)
          ∷ (codes "Protocol", Node.string r.protocol)
          ∷ (codes "Status", status_json r.status)
          ∷ (codes "EventTypes", Node.array (strings r.event_types))
          ∷ [])
        Fields.end))

-- `EventDestination::load_json`
unfoldable pub load_event_destination : Steps EventDestination
load_event_destination =
    Steps.inherit (λ r. r.base) (λ r b. record r { base = b }) load_resource
    ▸ Steps.read_string [] (Hop.at_key (codes "Id")) (λ r t. record r { id = t })
    ▸ Steps.read_string [] (Hop.at_key (codes "Destination")) (λ r t. record r { destination = t })
    ▸ Steps.read_string [] (Hop.at_key (codes "SubscriptionType"))
        (λ r t. record r { subscription_type = t })
    ▸ Steps.read_string [] (Hop.at_key (codes "DeliveryRetryPolicy"))
        (λ r t. record r { delivery_retry_policy = t })
    ▸ Steps.read_string [] (Hop.at_key (codes "Context")) (λ r t. record r { context = t })
    ▸ Steps.read_string [] (Hop.at_key (codes "Protocol")) (λ r t. record r { protocol = t })
    ▸ Steps.read_strings false (Hop.at_key (codes "EventTypes") ∷ [])
        (λ r ts. record r { event_types = r.event_types ++ ts })
    ▸ Steps.inner (Hop.at_key (codes "Status")) (λ r. r.status) (λ r x. record r { status = x })
        load_status
    ▸ Steps.done

pub record SseFilter : Type 0 where
  pub metric_report_definition : Bool
  pub registry_prefix : Bool
  pub resource_type : Bool
  pub event_format_type : Bool
  pub message_id : Bool
  pub origin_resource : Bool
  pub subordinate_resources : Bool

pub record Smtp : Type 0 where
  pub smtp_server : Text
  pub smtp_username : Text
  pub smtp_password : Text
  pub smtp_sender_address : Text
  pub smtp_port : ℕ
  pub smtp_ssl_enabled : Bool

pub record EventService : Type 0 where
  pub base : Resource
  pub id : Text
  pub service_enabled : Bool
  pub delivery_retry_attempts : ℕ
  pub delivery_retry_interval_seconds : ℕ
  pub event_types_for_subscription : List Text
  pub serversent_event_uri : Text
  pub sse : SseFilter
  pub status : Status
  pub subscriptions : Option Text
  pub smtp : Smtp
  pub actions : List Actions

unfoldable pub sse_json : SseFilter → Node
sse_json r = Node.object (
    fields
      ((codes "MetricReportDefinition", Node.boolean r.metric_report_definition)
        ∷ (codes "RegistryPrefix", Node.boolean r.registry_prefix)
        ∷ (codes "ResourceType", Node.boolean r.resource_type)
        ∷ (codes "EventFormatType", Node.boolean r.event_format_type)
        ∷ (codes "MessageId", Node.boolean r.message_id)
        ∷ (codes "OriginResource", Node.boolean r.origin_resource)
        ∷ (codes "SubordinateResources", Node.boolean r.subordinate_resources)
        ∷ [])
      Fields.end)

unfoldable pub smtp_json : Smtp → Node
smtp_json r = Node.object (
    fields
      ((codes "SmtpServer", Node.string r.smtp_server)
        ∷ (codes "SmtpUserName", Node.string r.smtp_username)
        ∷ (codes "SmtpPassword", Node.string r.smtp_password)
        ∷ (codes "SmtpSenderAddress", Node.string r.smtp_sender_address)
        ∷ (codes "SmtpPortNumber", Node.number r.smtp_port)
        ∷ (codes "SmtpSSLEnabled", Node.boolean r.smtp_ssl_enabled)
        ∷ [])
      Fields.end)

unfoldable pub load_sse : Steps SseFilter
load_sse =
    Steps.read_bool [] (Hop.at_key (codes "MetricReportDefinition"))
      (λ r b. record r { metric_report_definition = b })
    ▸ Steps.read_bool [] (Hop.at_key (codes "RegistryPrefix"))
        (λ r b. record r { registry_prefix = b })
    ▸ Steps.read_bool [] (Hop.at_key (codes "ResourceType")) (λ r b. record r { resource_type = b })
    ▸ Steps.read_bool [] (Hop.at_key (codes "EventFormatType"))
        (λ r b. record r { event_format_type = b })
    ▸ Steps.read_bool [] (Hop.at_key (codes "MessageId")) (λ r b. record r { message_id = b })
    ▸ Steps.read_bool [] (Hop.at_key (codes "OriginResource"))
        (λ r b. record r { origin_resource = b })
    ▸ Steps.read_bool [] (Hop.at_key (codes "SubordinateResources"))
        (λ r b. record r { subordinate_resources = b })
    ▸ Steps.done

unfoldable pub load_smtp : Steps Smtp
load_smtp =
    Steps.read_string [] (Hop.get_key (codes "SmtpServer")) (λ r t. record r { smtp_server = t })
    ▸ Steps.read_string [] (Hop.get_key (codes "SmtpUserName"))
        (λ r t. record r { smtp_username = t })
    ▸ Steps.read_string [] (Hop.get_key (codes "SmtpPassword"))
        (λ r t. record r { smtp_password = t })
    ▸ Steps.read_string [] (Hop.get_key (codes "SmtpSenderAddress"))
        (λ r t. record r { smtp_sender_address = t })
    ▸ Steps.read_number [] (Hop.get_key (codes "SmtpPortNumber"))
        (λ r n. record r { smtp_port = n })
    ▸ Steps.read_bool [] (Hop.get_key (codes "SmtpSSLEnabled"))
        (λ r b. record r { smtp_ssl_enabled = b })
    ▸ Steps.done

-- `EventService::get_json`
unfoldable pub event_service_json : EventService → Node
event_service_json r = Node.object (
    resource_json r.base (
      fields
        ((codes "Id", Node.string r.id)
          ∷ (codes "ServiceEnabled", Node.boolean r.service_enabled)
          ∷ (codes "DeliveryRetryAttempts", Node.number r.delivery_retry_attempts)
          ∷ (codes "DeliveryRetryIntervalSeconds", Node.number r.delivery_retry_interval_seconds)
          ∷ (codes "ServerSentEventUri", Node.string r.serversent_event_uri)
          ∷ (codes "Status", status_json r.status)
          ∷ (codes "EventTypesForSubscription", Node.array (strings r.event_types_for_subscription))
          ∷ (codes "SSEFilterPropertiesSupported", sse_json r.sse)
          ∷ (codes "SMTP", smtp_json r.smtp)
          ∷ (codes "Subscriptions", link r.subscriptions)
          ∷ (codes "Actions", action_info r.actions)
          ∷ [])
        Fields.end))

-- `EventService::load_json`
unfoldable pub load_event_service : Steps EventService
load_event_service =
    Steps.inherit (λ r. r.base) (λ r b. record r { base = b }) load_resource
    ▸ Steps.read_string [] (Hop.at_key (codes "Id")) (λ r t. record r { id = t })
    ▸ Steps.read_bool [] (Hop.at_key (codes "ServiceEnabled"))
        (λ r b. record r { service_enabled = b })
    ▸ Steps.read_number [] (Hop.at_key (codes "DeliveryRetryAttempts"))
        (λ r n. record r { delivery_retry_attempts = n })
    ▸ Steps.read_number [] (Hop.at_key (codes "DeliveryRetryIntervalSeconds"))
        (λ r n. record r { delivery_retry_interval_seconds = n })
    ▸ Steps.read_string [] (Hop.at_key (codes "ServerSentEventUri"))
        (λ r t. record r { serversent_event_uri = t })
    ▸ Steps.inner (Hop.at_key (codes "Status")) (λ r. r.status) (λ r x. record r { status = x })
        load_status
    ▸ Steps.read_strings false (Hop.at_key (codes "EventTypesForSubscription") ∷ [])
        (λ r ts. record r { event_types_for_subscription = r.event_types_for_subscription ++ ts })
    ▸ Steps.inner (Hop.at_key (codes "SSEFilterPropertiesSupported")) (λ r. r.sse)
        (λ r x. record r { sse = x }) load_sse
    ▸ Steps.inner (Hop.get_key (codes "SMTP")) (λ r. r.smtp) (λ r x. record r { smtp = x })
        load_smtp
    ▸ Steps.done

run-event_destination_json :
    (d fresh : EventDestination)
    → d.base.type < 256
    → run load_event_destination (event_destination_json d) (record fresh { event_types = [] })
      ≡ some d
unfolding run load_resource resource_json last_node follow_node node_at last_field text_eq
    status_json load_status texts_of strings load_event_destination event_destination_json
run-event_destination_json d fresh h =
    rw (texts_of-strings d.event_types, run) (rw (atoi8-to_string d.base.type h, run) refl)

-- A saved subscription is loaded as it was.
pub perform-event_destination_json :
    (L : Library) (law : IsLawful L) (d fresh : EventDestination)
    → d.base.type < 256
    → Fits (event_destination_json d)
    → perform L load_event_destination
        (make L (event_destination_json d))
        (record fresh { event_types = [] })
      ≡ (true, d)
perform-event_destination_json L law d fresh h fits =
    perform-make L law load_event_destination (event_destination_json d)
      (record fresh { event_types = [] }) d fits (run-event_destination_json d fresh h)

run-event_service_json :
    (s fresh : EventService)
    → s.base.type < 256
    → run load_event_service
        (event_service_json s)
        (record fresh { event_types_for_subscription = [] })
      ≡ some (record s { subscriptions = fresh.subscriptions; actions = fresh.actions })
unfolding run load_resource resource_json last_node follow_node node_at last_field text_eq
    status_json load_status texts_of strings load_event_service event_service_json sse_json
    smtp_json load_sse load_smtp
run-event_service_json s fresh h =
    rw (texts_of-strings s.event_types_for_subscription, run)
      (rw (atoi8-to_string s.base.type h, run) refl)

-- A saved event service is loaded as it was, but for the pointer to its subscriptions and the actions.
pub perform-event_service_json :
    (L : Library) (law : IsLawful L) (s fresh : EventService)
    → s.base.type < 256
    → Fits (event_service_json s)
    → perform L load_event_service
        (make L (event_service_json s))
        (record fresh { event_types_for_subscription = [] })
      ≡ (true, (record s { subscriptions = fresh.subscriptions; actions = fresh.actions }))
perform-event_service_json L law s fresh h fits =
    perform-make L law load_event_service (event_service_json s)
      (record fresh { event_types_for_subscription = [] })
      (record s { subscriptions = fresh.subscriptions; actions = fresh.actions }) fits
      (run-event_service_json s fresh h)
