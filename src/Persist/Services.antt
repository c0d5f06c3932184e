-- ===== src/Persist/Services.antt =====
-- `get_json` and `load_json` of the session service and the task service.
use cmm_sdk.Common.{ℕ, ◌<◌, ◌≡◌, refl, Bool, true, Option, some, [], ◌∷◌}
use cmm_sdk.Common.Text.{Text, codes, text_eq}
use cmm_sdk.Persist.{Node, Fields, Hop, Steps, Library, IsLawful, make, perform, fields, ◌▸◌}
use cmm_sdk.Persist.Reads.{run, last_node, follow_node, node_at, last_field, texts_of, Fits}
use cmm_sdk.Persist.Correct.{perform-make}
use cmm_sdk.Persist.Base.{
  Resource, resource_json, load_resource, atoi8-to_string, link, Status, status_json, load_status,
  strings,
}

pub record SessionService : Type 0 where
  pub base : Resource
  pub id : Text
  pub status : Status
  pub service_enabled : Bool
  pub session_timeout : ℕ
  pub session_collection : Option Text

-- `SessionService::get_json`
unfoldable pub session_service_json : SessionService → Node
session_service_json r = Node.object (
    resource_json r.base (
      fields
        ((codes "Id", Node.string r.id)
          ∷ (codes "Status", status_json r.status)
          ∷ (codes "ServiceEnabled", Node.boolean r.service_enabled)
          ∷ (codes "SessionTimeout", Node.number r.session_timeout)
          ∷ (codes "Sessions", link r.session_collection)
          ∷ [])
        Fields.end))

-- `SessionService::load_json`
unfoldable pub load_session_service : Steps SessionService
load_session_service =
    Steps.inherit (λ r. r.base) (λ r b. record r { base = b }) load_resource
    ▸ Steps.read_bool [] (Hop.at_key (codes "ServiceEnabled"))
        (λ r b. record r { service_enabled = b })
    ▸ Steps.read_number [] (Hop.at_key (codes "SessionTimeout"))
        (λ r n. record r { session_timeout = n })
    ▸ Steps.read_string [] (Hop.at_key (codes "Id")) (λ r t. record r { id = t })
    ▸ Steps.inner (Hop.at_key (codes "Status")) (λ r. r.status) (λ r x. record r { status = x })
        load_status
    ▸ Steps.done

pub record TaskService : Type 0 where
  pub base : Resource
  pub id : Text
  pub datetime : Text
  pub service_enabled : Bool
  pub status : Status
  pub task_collection : Option Text

-- `TaskService::get_json`
unfoldable pub task_service_json : TaskService → Node
task_service_json r = Node.object (
    resource_json r.base (
      fields
        ((codes "Id", Node.string r.id)
          ∷ (codes "Status", status_json r.status)
          ∷ (codes "ServiceEnabled", Node.boolean r.service_enabled)
          ∷ (codes "DateTime", Node.string r.datetime)
          ∷ (codes "Tasks", link r.task_collection)
          ∷ [])
        Fields.end))

-- `TaskService::load_json`
unfoldable pub load_task_service : Steps TaskService
load_task_service =
    Steps.inherit (λ r. r.base) (λ r b. record r { base = b }) load_resource
    ▸ Steps.read_string [] (Hop.at_key (codes "Id")) (λ r t. record r { id = t })
    ▸ Steps.read_string [] (Hop.at_key (codes "DateTime")) (λ r t. record r { datetime = t })
    ▸ Steps.read_bool [] (Hop.at_key (codes "ServiceEnabled"))
        (λ r b. record r { service_enabled = b })
    ▸ Steps.inner (Hop.at_key (codes "Status")) (λ r. r.status) (λ r x. record r { status = x })
        load_status
    ▸ Steps.done

run-session_service_json :
    (s fresh : SessionService)
    → s.base.type < 256
    → run load_session_service (session_service_json s) fresh
      ≡ some (record s { session_collection = fresh.session_collection })
unfolding run load_resource resource_json last_node follow_node node_at last_field text_eq
    status_json load_status texts_of strings load_session_service session_service_json
run-session_service_json s fresh h = rw (atoi8-to_string s.base.type h) refl

-- A saved session service is loaded as it was, but for the pointer to its sessions.
pub perform-session_service_json :
    (L : Library) (law : IsLawful L) (s fresh : SessionService)
    → s.base.type < 256
    → Fits (session_service_json s)
    → perform L load_session_service (make L (session_service_json s)) fresh
      ≡ (true, (record s { session_collection = fresh.session_collection }))
perform-session_service_json L law s fresh h fits =
    perform-make L law load_session_service (session_service_json s) fresh
      (record s { session_collection = fresh.session_collection }) fits
      (run-session_service_json s fresh h)

run-task_service_json :
    (s fresh : TaskService)
    → s.base.type < 256
    → run load_task_service (task_service_json s) fresh
      ≡ some (record s { task_collection = fresh.task_collection })
unfolding run load_resource resource_json last_node follow_node node_at last_field text_eq
    status_json load_status texts_of strings load_task_service task_service_json
run-task_service_json s fresh h = rw (atoi8-to_string s.base.type h) refl

-- A saved task service is loaded as it was, but for the pointer to its tasks.
pub perform-task_service_json :
    (L : Library) (law : IsLawful L) (s fresh : TaskService)
    → s.base.type < 256
    → Fits (task_service_json s)
    → perform L load_task_service (make L (task_service_json s)) fresh
      ≡ (true, (record s { task_collection = fresh.task_collection }))
perform-task_service_json L law s fresh h fits =
    perform-make L law load_task_service (task_service_json s) fresh
      (record s { task_collection = fresh.task_collection }) fits (run-task_service_json s fresh h)
