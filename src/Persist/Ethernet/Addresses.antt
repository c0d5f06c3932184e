-- ===== src/Persist/Ethernet/Addresses.antt =====
-- Addresses, DHCP and VLAN of a network interface, written and read.
use cmm_sdk.Common.{ℕ, ◌≡◌, refl, Bool, some, [], ◌∷◌}
use cmm_sdk.Common.Text.{Text, codes, text_eq}
use cmm_sdk.Persist.{Node, Fields, Hop, Steps, fields, ◌▸◌}
use cmm_sdk.Persist.Reads.{run, last_node, follow_node, node_at, last_field, texts_of}
use cmm_sdk.Persist.Base.{resource_json, load_resource, status_json, load_status, strings}

pub record DhcpV4 : Type 0 where
  pub dhcp_enabled : Bool
  pub use_dns_servers : Bool
  pub use_gateway : Bool
  pub use_ntp_servers : Bool
  pub use_static_routes : Bool
  pub use_domain_name : Bool

pub record DhcpV6 : Type 0 where
  pub operating_mode : Text
  pub use_dns_servers : Bool
  pub use_domain_name : Bool
  pub use_ntp_servers : Bool
  pub use_rapid_commit : Bool

pub record Ipv4Address : Type 0 where
  pub address : Text
  pub address_origin : Text
  pub subnet_mask : Text
  pub gateway : Text

pub record Ipv6Address : Type 0 where
  pub address : Text
  pub address_origin : Text
  pub address_state : Text
  pub prefix_length : ℕ

pub record Vlan : Type 0 where
  pub vlan_enable : Bool
  pub vlan_id : ℕ

unfoldable pub dhcp_v4_json : DhcpV4 → Node
dhcp_v4_json r = Node.object (
    fields
      ((codes "DHCPEnabled", Node.boolean r.dhcp_enabled)
        ∷ (codes "UseDNSServers", Node.boolean r.use_dns_servers)
        ∷ (codes "UseGateway", Node.boolean r.use_gateway)
        ∷ (codes "UseNTPServers", Node.boolean r.use_ntp_servers)
        ∷ (codes "UseStaticRoutes", Node.boolean r.use_static_routes)
        ∷ (codes "UseDomainName", Node.boolean r.use_domain_name)
        ∷ [])
      Fields.end)

unfoldable pub dhcp_v6_json : DhcpV6 → Node
dhcp_v6_json r = Node.object (
    fields
      ((codes "OperatingMode", Node.string r.operating_mode)
        ∷ (codes "UseDNSServers", Node.boolean r.use_dns_servers)
        ∷ (codes "UseDomainName", Node.boolean r.use_domain_name)
        ∷ (codes "UseNTPServers", Node.boolean r.use_ntp_servers)
        ∷ (codes "UseRapidCommit", Node.boolean r.use_rapid_commit)
        ∷ [])
      Fields.end)

unfoldable pub ipv4_json : Ipv4Address → Node
ipv4_json r = Node.object (
    fields
      ((codes "Address", Node.string r.address)
        ∷ (codes "SubnetMask", Node.string r.subnet_mask)
        ∷ (codes "AddressOrigin", Node.string r.address_origin)
        ∷ (codes "Gateway", Node.string r.gateway)
        ∷ [])
      Fields.end)

unfoldable pub ipv6_json : Ipv6Address → Node
ipv6_json r = Node.object (
    fields
      ((codes "Address", Node.string r.address)
        ∷ (codes "AddressState", Node.string r.address_state)
        ∷ (codes "AddressOrigin", Node.string r.address_origin)
        ∷ (codes "PrefixLength", Node.number r.prefix_length)
        ∷ [])
      Fields.end)

unfoldable pub vlan_json : Vlan → Node
vlan_json r = Node.object (
    fields
      ((codes "VLANEnable", Node.boolean r.vlan_enable)
        ∷ (codes "VLANId", Node.number r.vlan_id)
        ∷ [])
      Fields.end)

abbrev pub new_ipv4 : Ipv4Address
new_ipv4 = record { address = []; address_origin = []; subnet_mask = []; gateway = [] }

-- The uninitialised number is written before it is used.
abbrev pub new_ipv6 : Ipv6Address
new_ipv6 = record { address = []; address_origin = []; address_state = []; prefix_length = 0 }

unfoldable pub load_ipv4 : Steps Ipv4Address
load_ipv4 =
    Steps.read_string [] (Hop.at_key (codes "Address")) (λ r t. record r { address = t })
    ▸ Steps.read_string [] (Hop.at_key (codes "AddressOrigin"))
        (λ r t. record r { address_origin = t })
    ▸ Steps.read_string [] (Hop.at_key (codes "SubnetMask")) (λ r t. record r { subnet_mask = t })
    ▸ Steps.read_string [] (Hop.at_key (codes "Gateway")) (λ r t. record r { gateway = t })
    ▸ Steps.done

unfoldable pub load_ipv6 : Steps Ipv6Address
load_ipv6 =
    Steps.read_string [] (Hop.at_key (codes "Address")) (λ r t. record r { address = t })
    ▸ Steps.read_string [] (Hop.at_key (codes "AddressOrigin"))
        (λ r t. record r { address_origin = t })
    ▸ Steps.read_string [] (Hop.at_key (codes "AddressState"))
        (λ r t. record r { address_state = t })
    ▸ Steps.read_number [] (Hop.at_key (codes "PrefixLength"))
        (λ r n. record r { prefix_length = n })
    ▸ Steps.done

unfoldable pub load_dhcp_v4 : Steps DhcpV4
load_dhcp_v4 =
    Steps.read_bool [] (Hop.at_key (codes "DHCPEnabled")) (λ r b. record r { dhcp_enabled = b })
    ▸ Steps.read_bool [] (Hop.at_key (codes "UseDNSServers"))
        (λ r b. record r { use_dns_servers = b })
    ▸ Steps.read_bool [] (Hop.at_key (codes "UseDomainName"))
        (λ r b. record r { use_domain_name = b })
    ▸ Steps.read_bool [] (Hop.at_key (codes "UseGateway")) (λ r b. record r { use_gateway = b })
    ▸ Steps.read_bool [] (Hop.at_key (codes "UseNTPServers"))
        (λ r b. record r { use_ntp_servers = b })
    ▸ Steps.read_bool [] (Hop.at_key (codes "UseStaticRoutes"))
        (λ r b. record r { use_static_routes = b })
    ▸ Steps.done

unfoldable pub load_dhcp_v6 : Steps DhcpV6
load_dhcp_v6 =
    Steps.read_string [] (Hop.at_key (codes "OperatingMode"))
      (λ r t. record r { operating_mode = t })
    ▸ Steps.read_bool [] (Hop.at_key (codes "UseDNSServers"))
        (λ r b. record r { use_dns_servers = b })
    ▸ Steps.read_bool [] (Hop.at_key (codes "UseDomainName"))
        (λ r b. record r { use_domain_name = b })
    ▸ Steps.read_bool [] (Hop.at_key (codes "UseNTPServers"))
        (λ r b. record r { use_ntp_servers = b })
    ▸ Steps.read_bool [] (Hop.at_key (codes "UseRapidCommit"))
        (λ r b. record r { use_rapid_commit = b })
    ▸ Steps.done

unfoldable pub load_vlan : Steps Vlan
load_vlan =
    Steps.read_bool [] (Hop.at_key (codes "VLANEnable")) (λ r b. record r { vlan_enable = b })
    ▸ Steps.read_number [] (Hop.at_key (codes "VLANId")) (λ r n. record r { vlan_id = n })
    ▸ Steps.done

pub run-ipv4_json : (a : Ipv4Address) → run load_ipv4 (ipv4_json a) new_ipv4 ≡ some a
unfolding run load_resource resource_json last_node follow_node node_at last_field text_eq
    status_json load_status texts_of strings load_ipv4 ipv4_json
run-ipv4_json a = refl

pub run-ipv6_json : (a : Ipv6Address) → run load_ipv6 (ipv6_json a) new_ipv6 ≡ some a
unfolding run load_resource resource_json last_node follow_node node_at last_field text_eq
    status_json load_status texts_of strings load_ipv6 ipv6_json
run-ipv6_json a = refl
