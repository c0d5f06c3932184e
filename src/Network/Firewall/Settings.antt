-- ===== src/Network/Firewall/Settings.antt =====
-- The settings of the protocols, and their commands one protocol after the other.
use cmm_sdk.Common.{ℕ, suc, ◌≡◌, refl, Bool, true, false, List, [], ◌∷◌, ◌++◌, All}
use cmm_sdk.Common.Text.{Text, codes, text_eq}
use cmm_sdk.Common.Int.{ℤ}
use cmm_sdk.Network.Firewall.{
  NetworkProtocol, make_iptable_cmd, protocol_cmds, execute_iptables, save_rules, all_protocols,
}
use cmm_sdk.Network.Firewall.Tables.{IsPort, rule_cmd}

-- What the settings say of a protocol: whether it is accepted, and its port.
abbrev pub Setting : Type 0
Setting = Bool × ℤ

-- The eight protocols in the order of the indexes.
unfoldable pub protocols : NetworkProtocol → List Setting
protocols net =
    (net.http_enabled, net.http_port)
    ∷ (net.https_enabled, net.https_port)
    ∷ (net.snmp_enabled, net.snmp_port)
    ∷ (net.ipmi_enabled, net.ipmi_port)
    ∷ (net.kvmip_enabled, net.kvmip_port)
    ∷ (net.ssh_enabled, net.ssh_port)
    ∷ (net.virtual_media_enabled, net.virtual_media_port)
    ∷ (net.ntp_enabled, net.ntp_port)
    ∷ []

-- Every port is one that iptables takes.
abbrev pub HasPorts : NetworkProtocol → Type 0
HasPorts net = All (λ r. IsPort r.1) (protocols net)

-- The commands for the protocols from index `k` on.
unfoldable pub cmds : Text → ℕ → List Setting → List Text
cmds op k [] = save_rules ∷ []
cmds op k (r ∷ rs) = protocol_cmds op k r.0 r.1 ++ cmds op (suc k) rs

pub all_protocols-cmds :
    (net : NetworkProtocol) (op : Text) → all_protocols net op ≡ cmds op 1 (protocols net)
unfolding all_protocols execute_iptables cmds protocols
all_protocols-cmds net op = refl

-- The two texts of a protocol.
pub insert_cmds :
    (k : ℕ) (b : Bool) (port : ℤ)
    → protocol_cmds (codes "I") k b port
      ≡ rule_cmd (codes "iptables -I INPUT ") k (codes " -p tcp --dport ") port b
        ∷ rule_cmd (codes "iptables -I OUTPUT ") k (codes " -p tcp --sport ") port b
        ∷ []
unfolding protocol_cmds make_iptable_cmd text_eq
insert_cmds k true port = refl
insert_cmds k false port = refl

pub replace_cmds :
    (k : ℕ) (b : Bool) (port : ℤ)
    → protocol_cmds (codes "R") k b port
      ≡ rule_cmd (codes "iptables -R INPUT ") k (codes " -p tcp --dport ") port b
        ∷ rule_cmd (codes "iptables -R OUTPUT ") k (codes " -p tcp --sport ") port b
        ∷ []
unfolding protocol_cmds make_iptable_cmd text_eq
replace_cmds k true port = refl
replace_cmds k false port = refl
