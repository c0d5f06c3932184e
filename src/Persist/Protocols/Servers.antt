-- ===== src/Persist/Protocols/Servers.antt =====
-- The settings of NTP and SNMP, written and read.
use cmm_sdk.Common.{ℕ, ◌≡◌, refl, Bool, true, some, List, [], ◌∷◌, ◌++◌}
use cmm_sdk.Common.Text.{Text, codes, text_eq}
use cmm_sdk.Persist.{Node, Fields, Hop, Steps, fields, ◌▸◌}
use cmm_sdk.Persist.Reads.{run, last_node, follow_node, node_at, last_field, texts_of}
use cmm_sdk.Persist.Base.{resource_json, load_resource, status_json, load_status, strings, items}

pub record CommunityString : Type 0 where
  pub access_mode : Text
  pub community_string : Text
  pub name : Text

pub record EngineId : Type 0 where
  pub architecture_id : Text
  pub enterprise_specific_method : Text
  pub private_enterprise_id : Text

pub record Snmp : Type 0 where
  pub authentication_protocol : Text
  pub community_access_mode : Text
  pub enable_snmpv1 : Bool
  pub enable_snmpv2c : Bool
  pub enable_snmpv3 : Bool
  pub encryption_protocol : Text
  pub hide_community_strings : Bool
  pub port : ℕ
  pub protocol_enabled : Bool
  pub community_strings : List CommunityString
  pub engine_id : EngineId

pub record Ntp : Type 0 where
  pub protocol_enabled : Bool
  pub port : ℕ
  pub primary_ntp_server : Text
  pub secondary_ntp_server : Text
  pub date_str : Text
  pub time_str : Text
  pub timezone : Text
  pub ntp_servers : List Text

unfoldable pub ntp_json : Ntp → Node
ntp_json r = Node.object (
    fields
      ((codes "ProtocolEnabled", Node.boolean r.protocol_enabled)
        ∷ (codes "Port", Node.number r.port)
        ∷ (codes "PrimaryNTPServer", Node.string r.primary_ntp_server)
        ∷ (codes "SecondaryNTPServer", Node.string r.secondary_ntp_server)
        ∷ (codes "Date", Node.string r.date_str)
        ∷ (codes "Time", Node.string r.time_str)
        ∷ (codes "TimeZone", Node.string r.timezone)
        ∷ (codes "NTPServers", Node.array (strings r.ntp_servers))
        ∷ [])
      Fields.end)

unfoldable pub community_json : CommunityString → Node
community_json r = Node.object (
    fields
      ((codes "AccessMode", Node.string r.access_mode)
        ∷ (codes "CommunityString", Node.string r.community_string)
        ∷ (codes "Name", Node.string r.name)
        ∷ [])
      Fields.end)

unfoldable pub engine_json : EngineId → Node
engine_json r = Node.object (
    fields
      ((codes "ArchitectureId", Node.string r.architecture_id)
        ∷ (codes "EnterpriseSpecificMethod", Node.string r.enterprise_specific_method)
        ∷ (codes "PrivateEnterpriseId", Node.string r.private_enterprise_id)
        ∷ [])
      Fields.end)

unfoldable pub snmp_json : Snmp → Node
snmp_json r = Node.object (
    fields
      ((codes "AuthenticationProtocol", Node.string r.authentication_protocol)
        ∷ (codes "CommunityAccessMode", Node.string r.community_access_mode)
        ∷ (codes "EnableSNMPv1", Node.boolean r.enable_snmpv1)
        ∷ (codes "EnableSNMPv2c", Node.boolean r.enable_snmpv2c)
        ∷ (codes "EnableSNMPv3", Node.boolean r.enable_snmpv3)
        ∷ (codes "EncryptionProtocol", Node.string r.encryption_protocol)
        ∷ (codes "HideCommunityStrings", Node.boolean r.hide_community_strings)
        ∷ (codes "Port", Node.number r.port)
        ∷ (codes "ProtocolEnabled", Node.boolean r.protocol_enabled)
        ∷ (codes "EngineId", engine_json r.engine_id)
        ∷ (codes "CommunityStrings", Node.array (items community_json r.community_strings))
        ∷ [])
      Fields.end)

abbrev pub new_community : CommunityString
new_community = record { access_mode = []; community_string = []; name = [] }

unfoldable pub load_community : Steps CommunityString
load_community =
    Steps.read_string [] (Hop.get_key (codes "AccessMode")) (λ r t. record r { access_mode = t })
    ▸ Steps.read_string [] (Hop.get_key (codes "CommunityString"))
        (λ r t. record r { community_string = t })
    ▸ Steps.read_string [] (Hop.get_key (codes "Name")) (λ r t. record r { name = t })
    ▸ Steps.done

unfoldable pub load_engine : Steps EngineId
load_engine =
    Steps.read_string [] (Hop.get_key (codes "ArchitectureId"))
      (λ r t. record r { architecture_id = t })
    ▸ Steps.read_string [] (Hop.get_key (codes "EnterpriseSpecificMethod"))
        (λ r t. record r { enterprise_specific_method = t })
    ▸ Steps.read_string [] (Hop.get_key (codes "PrivateEnterpriseId"))
        (λ r t. record r { private_enterprise_id = t })
    ▸ Steps.done

unfoldable pub load_ntp : Steps Ntp
load_ntp =
    Steps.read_bool [] (Hop.get_key (codes "ProtocolEnabled"))
      (λ r b. record r { protocol_enabled = b })
    ▸ Steps.read_number [] (Hop.get_key (codes "Port")) (λ r n. record r { port = n })
    ▸ Steps.read_string [] (Hop.get_key (codes "PrimaryNTPServer"))
        (λ r t. record r { primary_ntp_server = t })
    ▸ Steps.read_string [] (Hop.get_key (codes "SecondaryNTPServer"))
        (λ r t. record r { secondary_ntp_server = t })
    ▸ Steps.read_string [] (Hop.get_key (codes "Date")) (λ r t. record r { date_str = t })
    ▸ Steps.read_string [] (Hop.get_key (codes "Time")) (λ r t. record r { time_str = t })
    ▸ Steps.read_string [] (Hop.get_key (codes "TimeZone")) (λ r t. record r { timezone = t })
    ▸ Steps.read_strings true (Hop.get_key (codes "NTPServers") ∷ [])
        (λ r ts. record r { ntp_servers = r.ntp_servers ++ ts })
    ▸ Steps.done

unfoldable pub load_snmp : Steps Snmp
load_snmp =
    Steps.read_string [] (Hop.get_key (codes "AuthenticationProtocol"))
      (λ r t. record r { authentication_protocol = t })
    ▸ Steps.read_string [] (Hop.get_key (codes "CommunityAccessMode"))
        (λ r t. record r { community_access_mode = t })
    ▸ Steps.read_bool [] (Hop.get_key (codes "EnableSNMPv1"))
        (λ r b. record r { enable_snmpv1 = b })
    ▸ Steps.read_bool [] (Hop.get_key (codes "EnableSNMPv2c"))
        (λ r b. record r { enable_snmpv2c = b })
    ▸ Steps.read_bool [] (Hop.get_key (codes "EnableSNMPv3"))
        (λ r b. record r { enable_snmpv3 = b })
    ▸ Steps.read_string [] (Hop.get_key (codes "EncryptionProtocol"))
        (λ r t. record r { encryption_protocol = t })
    ▸ Steps.read_bool [] (Hop.get_key (codes "HideCommunityStrings"))
        (λ r b. record r { hide_community_strings = b })
    ▸ Steps.read_number [] (Hop.get_key (codes "Port")) (λ r n. record r { port = n })
    ▸ Steps.read_bool [] (Hop.get_key (codes "ProtocolEnabled"))
        (λ r b. record r { protocol_enabled = b })
    ▸ Steps.inner (Hop.get_key (codes "EngineId")) (λ r. r.engine_id)
        (λ r x. record r { engine_id = x }) load_engine
    ▸ Steps.read_items true (Hop.get_key (codes "CommunityStrings") ∷ []) new_community
        load_community (λ r ts. record r { community_strings = r.community_strings ++ ts })
    ▸ Steps.done

pub run-community_json :
    (c : CommunityString) → run load_community (community_json c) new_community ≡ some c
unfolding run load_resource resource_json last_node follow_node node_at last_field text_eq
    status_json load_status texts_of strings load_community community_json
run-community_json c = refl
