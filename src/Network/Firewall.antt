-- ===== src/Network/Firewall.antt =====
-- `make_iptable_cmd`, `execute_iptables`, `init_iptable` and `patch_iptable` of src/resource.cpp, as
-- the commands that they give to `system`, in order. A port is any `int`.
pub mod Tables
pub mod Settings
pub mod Places
pub mod Chains
use cmm_sdk.Common.{ℕ, Bool, true, false, List, [], ◌∷◌, ◌++◌, ◌==◌, if◌then◌else◌}
use cmm_sdk.Common.Text.{Text, codes, text_eq}
use cmm_sdk.Common.Decimal.{to_string}
use cmm_sdk.Common.Int.{ℤ, int_to_string}

-- The fields of `NetworkProtocol` that the commands are made from.
pub record NetworkProtocol : Type 0 where
  pub http_enabled : Bool
  pub http_port : ℤ
  pub https_enabled : Bool
  pub https_port : ℤ
  pub snmp_enabled : Bool
  pub snmp_port : ℤ
  pub ipmi_enabled : Bool
  pub ipmi_port : ℤ
  pub kvmip_enabled : Bool
  pub kvmip_port : ℤ
  pub ssh_enabled : Bool
  pub ssh_port : ℤ
  pub virtual_media_enabled : Bool
  pub virtual_media_port : ℤ
  pub ntp_enabled : Bool
  pub ntp_port : ℤ

-- `enum NETWORK_PROTOCOL_IPTABLE_INDEX`
abbrev pub http_index : ℕ
http_index = 1

abbrev pub https_index : ℕ
https_index = 2

abbrev pub snmp_index : ℕ
snmp_index = 3

abbrev pub ipmi_index : ℕ
ipmi_index = 4

abbrev pub kvmip_index : ℕ
kvmip_index = 5

abbrev pub ssh_index : ℕ
ssh_index = 6

abbrev pub vm_index : ℕ
vm_index = 7

abbrev pub ntp_index : ℕ
ntp_index = 8

abbrev pub command : Text → Text → ℕ → Text → ℤ → Text → Text
command op chain index option port target =
    (codes "iptables -" ++ op)
    ++ ((codes " " ++ (chain ++ codes " "))
        ++ (to_string index
            ++ (codes " -p tcp " ++ (option ++ (codes " " ++ (int_to_string port ++ target))))))

-- `able` is 0 for ACCEPT and 1 for REJECT; anything else gives the empty command.
unfoldable pub make_iptable_cmd : Text → Text → ℕ → ℤ → ℕ → Text
unfolding text_eq
make_iptable_cmd op pos index port able =
    if able == 0
    then if text_eq pos (codes "INPUT")
      then command op (codes "INPUT") index (codes "--dport") port (codes " -j ACCEPT")
      else if text_eq pos (codes "OUTPUT")
      then command op (codes "OUTPUT") index (codes "--sport") port (codes " -j ACCEPT")
      else []
    else if able == 1
    then if text_eq pos (codes "INPUT")
      then command op (codes "INPUT") index (codes "--dport") port (codes " -j REJECT")
      else if text_eq pos (codes "OUTPUT")
      then command op (codes "OUTPUT") index (codes "--sport") port (codes " -j REJECT")
      else []
    else []

-- One case of the `switch`: both commands of a protocol.
unfoldable pub protocol_cmds : Text → ℕ → Bool → ℤ → List Text
unfolding make_iptable_cmd
protocol_cmds op index enabled port =
    if enabled
    then make_iptable_cmd op (codes "INPUT") index port 0
      ∷ make_iptable_cmd op (codes "OUTPUT") index port 0
      ∷ []
    else make_iptable_cmd op (codes "INPUT") index port 1
      ∷ make_iptable_cmd op (codes "OUTPUT") index port 1
      ∷ []

unfoldable pub execute_iptables : NetworkProtocol → ℕ → Text → List Text
unfolding protocol_cmds
execute_iptables net index op =
    if index == http_index
    then protocol_cmds op http_index net.http_enabled net.http_port
    else if index == https_index
    then protocol_cmds op https_index net.https_enabled net.https_port
    else if index == snmp_index
    then protocol_cmds op snmp_index net.snmp_enabled net.snmp_port
    else if index == ipmi_index
    then protocol_cmds op ipmi_index net.ipmi_enabled net.ipmi_port
    else if index == kvmip_index
    then protocol_cmds op kvmip_index net.kvmip_enabled net.kvmip_port
    else if index == ssh_index
    then protocol_cmds op ssh_index net.ssh_enabled net.ssh_port
    else if index == vm_index
    then protocol_cmds op vm_index net.virtual_media_enabled net.virtual_media_port
    else if index == ntp_index
    then protocol_cmds op ntp_index net.ntp_enabled net.ntp_port
    else [] ∷ [] ∷ []

abbrev pub save_rules : Text
save_rules = codes "iptables-save > /etc/iptables.rules"

unfoldable pub all_protocols : NetworkProtocol → Text → List Text
unfolding execute_iptables
all_protocols net op =
    execute_iptables net http_index op
    ++ (execute_iptables net https_index op
        ++ (execute_iptables net snmp_index op
            ++ (execute_iptables net ipmi_index op
                ++ (execute_iptables net kvmip_index op
                    ++ (execute_iptables net ssh_index op
                        ++ (execute_iptables net vm_index op
                            ++ (execute_iptables net ntp_index op ++ (save_rules ∷ []))))))))

unfoldable pub init_iptable : NetworkProtocol → List Text
unfolding all_protocols
init_iptable net = all_protocols net (codes "I")

unfoldable pub patch_iptable : NetworkProtocol → List Text
unfolding all_protocols
patch_iptable net = all_protocols net (codes "R")
