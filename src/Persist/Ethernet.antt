-- ===== src/Persist/Ethernet.antt =====
-- `get_json` and `load_json` of network interfaces.
pub mod Addresses
use cmm_sdk.Common.{
  ℕ, ◌<◌, ◌≡◌, refl, ap, Bool, true, false, Option, none, some, List, [], ◌∷◌, ◌++◌,
}
use cmm_sdk.Common.Text.{Text, codes, text_eq}
use cmm_sdk.Common.Decimal.{to_string}
use cmm_sdk.Persist.{Node, Fields, Items, Hop, Steps, Library, IsLawful, make, perform, fields, ◌▸◌}
use cmm_sdk.Persist.Reads.{
  run, last_node, follow_node, node_at, last_field, texts_of, items_by, Fits, AllFit, EachFits,
}
use cmm_sdk.Persist.Correct.{perform-make}
use cmm_sdk.Persist.Base.{
  Resource, resource_json, load_resource, atoi8, atoi8-to_string, link, Status, status_json,
  load_status, strings, items, texts_of-strings, items_by-items, Actions, action_info,
}
use cmm_sdk.Persist.Ethernet.Addresses.{
  DhcpV4, DhcpV6, Ipv4Address, Ipv6Address, Vlan, dhcp_v4_json, dhcp_v6_json, ipv4_json, ipv6_json,
  vlan_json, new_ipv4, new_ipv6, load_ipv4, load_ipv6, load_dhcp_v4, load_dhcp_v6, load_vlan,
  run-ipv4_json, run-ipv6_json,
}

-- The `name` that this class declares again is neither written nor read.
pub record EthernetInterfaces : Type 0 where
  pub base : Resource
  pub id : Text
  pub description : Text
  pub link_status : Text
  pub permanent_mac_address : Text
  pub mac_address : Text
  pub speed_mbps : ℕ
  pub autoneg : Bool
  pub full_duplex : Bool
  pub mtu_size : ℕ
  pub hostname : Text
  pub fqdn : Text
  pub ipv6_default_gateway : Text
  pub interface_enabled : Bool
  pub name_servers : List Text
  pub dhcp_v4 : DhcpV4
  pub dhcp_v6 : DhcpV6
  pub v_ipv4 : List Ipv4Address
  pub v_ipv6 : List Ipv6Address
  pub vlan : Vlan
  pub status : Status

-- `EthernetInterfaces::get_json`
unfoldable pub ethernet_json : EthernetInterfaces → Node
ethernet_json r = Node.object (
    resource_json r.base (
      fields
        ((codes "Id", Node.string r.id)
          ∷ (codes "Description", Node.string r.description)
          ∷ (codes "LinkStatus", Node.string r.link_status)
          ∷ (codes "PermanentMACAddress", Node.string r.permanent_mac_address)
          ∷ (codes "MACAddress", Node.string r.mac_address)
          ∷ (codes "SpeedMbps", Node.number r.speed_mbps)
          ∷ (codes "AutoNeg", Node.boolean r.autoneg)
          ∷ (codes "FullDuplex", Node.boolean r.full_duplex)
          ∷ (codes "MTUSize", Node.number r.mtu_size)
          ∷ (codes "HostName", Node.string r.hostname)
          ∷ (codes "FQDN", Node.string r.fqdn)
          ∷ (codes "IPv6DefaultGateway", Node.string r.ipv6_default_gateway)
          ∷ (codes "InterfaceEnabled", Node.boolean r.interface_enabled)
          ∷ (codes "Status", status_json r.status)
          ∷ (codes "NameServers", Node.array (strings r.name_servers))
          ∷ (codes "DHCPv4", dhcp_v4_json r.dhcp_v4)
          ∷ (codes "DHCPv6", dhcp_v6_json r.dhcp_v6)
          ∷ (codes "IPv4Addresses", Node.array (items ipv4_json r.v_ipv4))
          ∷ (codes "IPv6Addresses", Node.array (items ipv6_json r.v_ipv6))
          ∷ (codes "VLAN", vlan_json r.vlan)
          ∷ [])
        Fields.end))

-- `EthernetInterfaces::load_json`
unfoldable pub load_ethernet : Steps EthernetInterfaces
load_ethernet =
    Steps.inherit (λ r. r.base) (λ r b. record r { base = b }) load_resource
    ▸ Steps.read_string [] (Hop.at_key (codes "Id")) (λ r t. record r { id = t })
    ▸ Steps.read_string [] (Hop.at_key (codes "Description")) (λ r t. record r { description = t })
    ▸ Steps.read_string [] (Hop.at_key (codes "LinkStatus")) (λ r t. record r { link_status = t })
    ▸ Steps.read_string [] (Hop.at_key (codes "PermanentMACAddress"))
        (λ r t. record r { permanent_mac_address = t })
    ▸ Steps.read_string [] (Hop.at_key (codes "MACAddress")) (λ r t. record r { mac_address = t })
    ▸ Steps.read_number [] (Hop.at_key (codes "SpeedMbps")) (λ r n. record r { speed_mbps = n })
    ▸ Steps.read_bool [] (Hop.at_key (codes "AutoNeg")) (λ r b. record r { autoneg = b })
    ▸ Steps.read_bool [] (Hop.at_key (codes "FullDuplex")) (λ r b. record r { full_duplex = b })
    ▸ Steps.read_number [] (Hop.at_key (codes "MTUSize")) (λ r n. record r { mtu_size = n })
    ▸ Steps.read_string [] (Hop.at_key (codes "HostName")) (λ r t. record r { hostname = t })
    ▸ Steps.read_string [] (Hop.at_key (codes "FQDN")) (λ r t. record r { fqdn = t })
    ▸ Steps.read_bool [] (Hop.at_key (codes "InterfaceEnabled"))
        (λ r b. record r { interface_enabled = b })
    ▸ Steps.inner (Hop.at_key (codes "Status")) (λ r. r.status) (λ r x. record r { status = x })
        load_status
    ▸ Steps.read_strings false (Hop.at_key (codes "NameServers") ∷ [])
        (λ r ts. record r { name_servers = r.name_servers ++ ts })
    ▸ Steps.inner (Hop.at_key (codes "DHCPv4")) (λ r. r.dhcp_v4) (λ r x. record r { dhcp_v4 = x })
        load_dhcp_v4
    ▸ Steps.inner (Hop.at_key (codes "DHCPv6")) (λ r. r.dhcp_v6) (λ r x. record r { dhcp_v6 = x })
        load_dhcp_v6
    ▸ Steps.read_items false (Hop.at_key (codes "IPv4Addresses") ∷ []) new_ipv4 load_ipv4
        (λ r ts. record r { v_ipv4 = r.v_ipv4 ++ ts })
    ▸ Steps.read_items false (Hop.at_key (codes "IPv6Addresses") ∷ []) new_ipv6 load_ipv6
        (λ r ts. record r { v_ipv6 = r.v_ipv6 ++ ts })
    ▸ Steps.read_string [] (Hop.at_key (codes "IPv6DefaultGateway"))
        (λ r t. record r { ipv6_default_gateway = t })
    ▸ Steps.inner (Hop.at_key (codes "VLAN")) (λ r. r.vlan) (λ r x. record r { vlan = x }) load_vlan
    ▸ Steps.done

-- The return value too is that of the source: true, also after an exception.
unfoldable pub load_ethernet_json :
    (L : Library) → L.json.Value → EthernetInterfaces → Bool × EthernetInterfaces
load_ethernet_json L v e = (true, (perform L load_ethernet v e).1)

run-ethernet_json :
    (e fresh : EthernetInterfaces)
    → e.base.type < 256
    → run load_ethernet
        (ethernet_json e)
        (record fresh { name_servers = []; v_ipv4 = []; v_ipv6 = [] })
      ≡ some e
unfolding run load_resource resource_json last_node follow_node node_at last_field text_eq
    status_json load_status texts_of strings load_ethernet ethernet_json dhcp_v4_json dhcp_v6_json
    vlan_json load_dhcp_v4 load_dhcp_v6 load_vlan
run-ethernet_json e fresh h =
    rw (texts_of-strings e.name_servers, run)
      (rw (items_by-items ipv4_json (λ m. run load_ipv4 m new_ipv4) e.v_ipv4 run-ipv4_json, run)
        (rw (items_by-items ipv6_json (λ m. run load_ipv6 m new_ipv6) e.v_ipv6 run-ipv6_json, run)
          (rw (atoi8-to_string e.base.type h, run) refl)))

-- A saved interface is loaded as it was.
pub perform-ethernet_json :
    (L : Library) (law : IsLawful L) (e fresh : EthernetInterfaces)
    → e.base.type < 256
    → Fits (ethernet_json e)
    → (perform L load_ethernet
          (make L (ethernet_json e))
          (record fresh { name_servers = []; v_ipv4 = []; v_ipv6 = [] })
        ≡ (true, e))
      × (load_ethernet_json L
            (make L (ethernet_json e))
            (record fresh { name_servers = []; v_ipv4 = []; v_ipv6 = [] })
          ≡ (true, e))
unfolding load_ethernet_json
perform-ethernet_json L law e fresh h fits =
    let same =
      perform-make L law load_ethernet (ethernet_json e)
        (record fresh { name_servers = []; v_ipv4 = []; v_ipv6 = [] }) e fits
        (run-ethernet_json e fresh h) in
    (same, ap (λ r. (true, r.1)) same)
