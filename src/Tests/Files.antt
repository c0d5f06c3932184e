-- ===== src/Tests/Files.antt =====
-- The editors of network files on small files.
use cmm_sdk.Common.{List, [], ◌∷◌}
use cmm_sdk.Common.Text.{Text, codes}
use cmm_sdk.Network.Hosts.{change_hosts_file}
use cmm_sdk.Network.Hosts.Rename.{HostsFile, change_hosts_file_lem}

abbrev interfaces : List Text
interfaces =
    codes "auto eth0"
    ∷ codes "iface eth0 inet static"
    ∷ codes "  address 10.0.0.1"
    ∷ codes "  netmask 255.0.0.0"
    ∷ codes "auto eth1"
    ∷ codes "iface eth1 inet static"
    ∷ []

abbrev hosts : List Text
hosts = codes "127.0.0.1 localhost" ∷ codes "127.0.1.1 cmm" ∷ []

change_hosts_file_lem_example :
    HostsFile
      (codes "cmm")
      (codes "rack")
      hosts
      (change_hosts_file (codes "cmm") (codes "rack") hosts)
change_hosts_file_lem_example = change_hosts_file_lem (codes "cmm") (codes "rack") hosts
