-- ===== src/Persist/Protocols.antt =====
-- `get_json` and `load_json` of the network protocols.
pub mod Servers
use cmm_sdk.Common.{ℕ, ◌<◌, ◌≡◌, refl, Bool, true, false, Option, none, some, List, [], ◌∷◌, ◌++◌}
use cmm_sdk.Common.Text.{Text, codes, text_eq}
use cmm_sdk.Common.Decimal.{to_string}
use cmm_sdk.Persist.{Node, Fields, Items, Hop, Steps, Library, IsLawful, make, perform, fields, ◌▸◌}
use cmm_sdk.Persist.Reads.{
  run, last_node, follow_node, node_at, last_field, texts_of, items_by, Fits, AllFit, EachFits,
}
use cmm_sdk.Persist.Correct.{perform-make}
use cmm_sdk.Persist.Base.{
  Resource, resource_json, load_resource, atoi8, atoi8-to_string, link, Status, status_json,
  load_status, strings, items, texts_of-strings, items_by-items, Actions, action_info,
}
use cmm_sdk.Persist.Protocols.Servers.{
  CommunityString, EngineId, Snmp, Ntp, ntp_json, community_json, engine_json, snmp_json,
  new_community, load_community, load_engine, load_ntp, load_snmp, run-community_json,
}

-- The `name` that this class declares again is neither written nor read.
pub record NetworkProtocol : Type 0 where
  pub base : Resource
  pub id : Text
  pub hostname : Text
  pub description : Text
  pub fqdn : Text
  pub ipmi_enabled : Bool
  pub kvmip_enabled : Bool
  pub https_enabled : Bool
  pub http_enabled : Bool
  pub virtual_media_enabled : Bool
  pub ssh_enabled : Bool
  pub ipmi_port : ℕ
  pub kvmip_port : ℕ
  pub https_port : ℕ
  pub http_port : ℕ
  pub virtual_media_port : ℕ
  pub ssh_port : ℕ
  pub snmp : Snmp
  pub ntp : Ntp
  pub status : Status
  pub certificates : Option Text

-- A protocol: whether it is enabled, and its port.
unfoldable pub protocol_json : Bool → ℕ → Node
protocol_json enabled port = Node.object (
    fields ((codes "ProtocolEnabled", Node.boolean enabled) ∷ (codes "Port", Node.number port) ∷ [])
      Fields.end)

-- `NetworkProtocol::get_json`
unfoldable pub protocols_json : NetworkProtocol → Node
protocols_json r = Node.object (
    resource_json r.base (
      fields
        ((codes "FQDN", Node.string r.fqdn)
          ∷ (codes "Id", Node.string r.id)
          ∷ (codes "HostName", Node.string r.hostname)
          ∷ (codes "Description", Node.string r.description)
          ∷ (codes "Status", status_json r.status)
          ∷ (codes "IPMI", protocol_json r.ipmi_enabled r.ipmi_port)
          ∷ (codes "VirtualMedia", protocol_json r.virtual_media_enabled r.virtual_media_port)
          ∷ (codes "SSH", protocol_json r.ssh_enabled r.ssh_port)
          ∷ (codes "KVMIP", protocol_json r.kvmip_enabled r.kvmip_port)
          ∷ (codes "HTTP", protocol_json r.http_enabled r.http_port)
          ∷ (codes "HTTPS", protocol_json r.https_enabled r.https_port)
          ∷ (codes "NTP", ntp_json r.ntp)
          ∷ (codes "SNMP", snmp_json r.snmp)
          ∷ (codes "Certificates", link r.certificates)
          ∷ [])
        Fields.end))

-- The two fields of a protocol.
unfoldable pub load_protocol : {S : Type 0} → (S → Bool → S) → (S → ℕ → S) → Steps S
load_protocol put_enabled put_port =
    Steps.read_bool [] (Hop.get_key (codes "ProtocolEnabled")) put_enabled
    ▸ Steps.read_number [] (Hop.get_key (codes "Port")) put_port
    ▸ Steps.done

-- `NetworkProtocol::load_json`
unfoldable pub load_protocols : Steps NetworkProtocol
load_protocols =
    Steps.inherit (λ r. r.base) (λ r b. record r { base = b }) load_resource
    ▸ Steps.read_string [] (Hop.at_key (codes "Id")) (λ r t. record r { id = t })
    ▸ Steps.read_string [] (Hop.at_key (codes "FQDN")) (λ r t. record r { fqdn = t })
    ▸ Steps.read_string [] (Hop.at_key (codes "HostName")) (λ r t. record r { hostname = t })
    ▸ Steps.read_string [] (Hop.at_key (codes "Description")) (λ r t. record r { description = t })
    ▸ Steps.inner (Hop.at_key (codes "Status")) (λ r. r.status) (λ r x. record r { status = x })
        load_status
    ▸ Steps.inner {T = NetworkProtocol} (Hop.at_key (codes "IPMI")) (λ r. r) (λ r x. x)
        (load_protocol (λ r b. record r { ipmi_enabled = b }) (λ r n. record r { ipmi_port = n }))
    ▸ Steps.inner {T = NetworkProtocol} (Hop.at_key (codes "KVMIP")) (λ r. r) (λ r x. x)
        (load_protocol (λ r b. record r { kvmip_enabled = b }) (λ r n. record r { kvmip_port = n }))
    ▸ Steps.inner {T = NetworkProtocol} (Hop.at_key (codes "HTTP")) (λ r. r) (λ r x. x)
        (load_protocol (λ r b. record r { http_enabled = b }) (λ r n. record r { http_port = n }))
    ▸ Steps.inner {T = NetworkProtocol} (Hop.at_key (codes "HTTPS")) (λ r. r) (λ r x. x)
        (load_protocol (λ r b. record r { https_enabled = b }) (λ r n. record r { https_port = n }))
    ▸ Steps.inner (Hop.at_key (codes "NTP")) (λ r. r.ntp) (λ r x. record r { ntp = x }) load_ntp
    ▸ Steps.inner (Hop.at_key (codes "SNMP")) (λ r. r.snmp) (λ r x. record r { snmp = x }) load_snmp
    ▸ Steps.done

abbrev pub without_lists : NetworkProtocol → NetworkProtocol
without_lists r = record r {
  ntp = record r.ntp { ntp_servers = [] };
  snmp = record r.snmp { community_strings = [] };
}

-- What is left of the object that is loaded into.
abbrev pub restored : NetworkProtocol → NetworkProtocol → NetworkProtocol
restored p fresh = record p {
  virtual_media_enabled = fresh.virtual_media_enabled;
  virtual_media_port = fresh.virtual_media_port;
  ssh_enabled = fresh.ssh_enabled;
  ssh_port = fresh.ssh_port;
  certificates = fresh.certificates;
}

run-protocols_json :
    (p fresh : NetworkProtocol)
    → p.base.type < 256
    → run load_protocols (protocols_json p) (without_lists fresh) ≡ some (restored p fresh)
unfolding run load_resource resource_json last_node follow_node node_at last_field text_eq
    status_json load_status texts_of strings load_protocols protocols_json protocol_json ntp_json
    snmp_json engine_json load_protocol load_ntp load_snmp load_engine
run-protocols_json p fresh h =
    rw (texts_of-strings p.ntp.ntp_servers, run)
      (rw
        (
          items_by-items community_json (λ m. run load_community m new_community)
              p.snmp.community_strings run-community_json,
          run,
        )
        (rw (atoi8-to_string p.base.type h, run) refl))

-- Saved protocols are loaded as they were, but for SSH, the virtual media and the pointer to the certificates.
pub perform-protocols_json :
    (L : Library) (law : IsLawful L) (p fresh : NetworkProtocol)
    → p.base.type < 256
    → Fits (protocols_json p)
    → perform L load_protocols (make L (protocols_json p)) (without_lists fresh)
      ≡ (true, (restored p fresh))
perform-protocols_json L law p fresh h fits =
    perform-make L law load_protocols (protocols_json p) (without_lists fresh) (restored p fresh)
      fits (run-protocols_json p fresh h)
