-- ===== src/Tests/Services.antt =====
-- Services, events, logs and network settings that are saved and loaded again.
use cmm_sdk.Common.{◌≡◌, refl, true, false, none, some, [], ◌∷◌}
use cmm_sdk.Common.Text.{codes}
use cmm_sdk.Persist.{make, perform}
use cmm_sdk.Persist.Base.{
  resource_json, link, status_json, strings, items, parameter_fields, action_fields, action_info,
}
use cmm_sdk.Persist.Services.{
  SessionService, session_service_json, load_session_service, TaskService, task_service_json,
  load_task_service,
}
use cmm_sdk.Persist.AccountService.{
  without_lists, AccountService, account_service_json, load_account_service,
}
use cmm_sdk.Persist.AccountService.Directories.{
  authentication_json, setting_json, ldap_service_json, ldap_json, directory_json,
}
use cmm_sdk.Persist.Events.{
  EventDestination, event_destination_json, load_event_destination, EventService,
  event_service_json, load_event_service, sse_json, smtp_json,
}
use cmm_sdk.Persist.Entries.{LogEntry, log_entry_json, load_log_entry, specific_json}
use cmm_sdk.Persist.Logs.{LogService, log_service_json, load_log_service, filter_json}
use cmm_sdk.Persist.Ethernet.{EthernetInterfaces, ethernet_json, load_ethernet, load_ethernet_json}
use cmm_sdk.Persist.Ethernet.Addresses.{dhcp_v4_json, dhcp_v6_json, ipv4_json, ipv6_json, vlan_json}
use cmm_sdk.Persist.Protocols.{
  NetworkProtocol, protocols_json, load_protocols, protocol_json, restored,
}
use cmm_sdk.Persist.Protocols.Servers.{ntp_json, community_json, engine_json, snmp_json}
use cmm_sdk.Persist.Protocols
use cmm_sdk.Persist.Restored.{
  Savable, services_restored, events_and_logs_restored, network_restored,
}
use cmm_sdk.Tests.Saved.{node_library, node_library-IsLawful}
use cmm_sdk.Tests.Restored.{fits, base, fits-Savable}

abbrev sessions : SessionService
sessions = record {
  base = base;
  id = codes "SessionService";
  status = record { state = codes "Enabled"; health = codes "OK" };
  service_enabled = true;
  session_timeout = 600;
  session_collection = some (codes "/s");
}

abbrev tasks : TaskService
tasks = record {
  base = base;
  id = codes "TaskService";
  datetime = codes "now";
  service_enabled = true;
  status = record { state = codes "Enabled"; health = codes "OK" };
  task_collection = none;
}

abbrev accounts : AccountService
accounts = record {
  base = base;
  id = codes "AccountService";
  status = record { state = codes "Enabled"; health = codes "OK" };
  service_enabled = true;
  auth_failure_logging_threshold = 3;
  min_password_length = 8;
  max_password_length = 24;
  account_lockout_threshold = 5;
  account_lockout_duration = 30;
  account_lockout_counter_reset_after = 30;
  account_lockout_counter_reset_enabled = true;
  account_collection = some (codes "/a");
  role_collection = some (codes "/r");
  ldap = record {
    account_provider_type = codes "LDAPService";
    password_set = true;
    service_enabled = false;
    port = 389;
    service_addresses = codes "10.0.0.1" ∷ [];
    authentication = record {
      authentication_type = codes "Token";
      username = codes "u";
      password = codes "p";
    };
    ldap_service = record {
      search_settings = record {
        base_distinguished_names = codes "dc" ∷ [];
        groups_attribute = codes "g";
        group_name_attribute = codes "n";
        user_name_attribute = codes "u";
      };
    };
  };
  active_directory = record {
    account_provider_type = codes "AD";
    service_enabled = false;
    port = 390;
    service_addresses = [];
    authentication = record {
      authentication_type = codes "Token";
      username = codes "u";
      password = codes "p";
    };
  };
}

abbrev subscriber : EventDestination
subscriber = record {
  base = base;
  id = codes "1";
  destination = codes "http://a";
  subscription_type = codes "RedfishEvent";
  delivery_retry_policy = codes "RetryForever";
  event_types = codes "Alert" ∷ codes "StatusChange" ∷ [];
  protocol = codes "Redfish";
  context = codes "c";
  status = record { state = codes "Enabled"; health = codes "OK" };
}

abbrev events : EventService
events = record {
  base = base;
  id = codes "EventService";
  service_enabled = true;
  delivery_retry_attempts = 3;
  delivery_retry_interval_seconds = 60;
  event_types_for_subscription = codes "Alert" ∷ [];
  serversent_event_uri = codes "/sse";
  sse = record {
    metric_report_definition = true;
    registry_prefix = false;
    resource_type = true;
    event_format_type = false;
    message_id = true;
    origin_resource = false;
    subordinate_resources = true;
  };
  status = record { state = codes "Enabled"; health = codes "OK" };
  subscriptions = none;
  smtp = record {
    smtp_server = codes "m";
    smtp_username = codes "u";
    smtp_password = codes "p";
    smtp_sender_address = codes "a";
    smtp_port = 25;
    smtp_ssl_enabled = true;
  };
  actions = [];
}

abbrev log_entry : LogEntry
log_entry = record {
  base = base;
  id = codes "1";
  entry_type = codes "Event";
  severity = codes "OK";
  created = codes "now";
  message = record {
    id = codes "Alert.1.0";
    message = codes "hot";
    severity = codes "OK";
    message_args = codes "fan" ∷ [];
    resolution = codes "none";
  };
  sensor_number = 7;
  sensor_type = codes "Fan";
  entry_code = codes "Assert";
  event_id = codes "e";
  event_timestamp = codes "then";
  event_type = codes "Alert";
}

abbrev log : LogService
log = record {
  base = base;
  id = codes "Log";
  description = codes "d";
  datetime = codes "now";
  datetime_local_offset = codes "+09:00";
  max_number_of_records = 100;
  log_entry_type = codes "SEL";
  overwrite_policy = codes "WrapsWhenFull";
  service_enabled = true;
  status = record { state = codes "Enabled"; health = codes "OK" };
  syslog_filters =
      record { log_facilities = codes "Kern" ∷ []; lowest_severity = codes "Warning" } ∷ [];
  entry = some (codes "/e");
  actions =
      record { name = codes "#LogService.ClearLog"; target = codes "/c"; parameters = [] } ∷ [];
  record_count = 12;
}

abbrev interface : EthernetInterfaces
interface = record {
  base = base;
  id = codes "eth0";
  description = codes "d";
  link_status = codes "LinkUp";
  permanent_mac_address = codes "m";
  mac_address = codes "m";
  speed_mbps = 1000;
  autoneg = true;
  full_duplex = true;
  mtu_size = 1500;
  hostname = codes "h";
  fqdn = codes "f";
  ipv6_default_gateway = codes "g";
  interface_enabled = true;
  name_servers = codes "8.8.8.8" ∷ [];
  dhcp_v4 = record {
    dhcp_enabled = true;
    use_dns_servers = false;
    use_gateway = true;
    use_ntp_servers = false;
    use_static_routes = true;
    use_domain_name = false;
  };
  dhcp_v6 = record {
    operating_mode = codes "Stateful";
    use_dns_servers = true;
    use_domain_name = true;
    use_ntp_servers = false;
    use_rapid_commit = false;
  };
  v_ipv4 =
      record {
        address = codes "10.0.0.2";
        address_origin = codes "Static";
        subnet_mask = codes "255.0.0.0";
        gateway = codes "10.0.0.1";
      }
      ∷ [];
  v_ipv6 =
      record {
        address = codes "fe80::1";
        address_origin = codes "SLAAC";
        address_state = codes "Preferred";
        prefix_length = 64;
      }
      ∷ [];
  vlan = record { vlan_enable = false; vlan_id = 1 };
  status = record { state = codes "Enabled"; health = codes "OK" };
}

abbrev protocols : NetworkProtocol
protocols = record {
  base = base;
  id = codes "NetworkProtocol";
  hostname = codes "h";
  description = codes "d";
  fqdn = codes "f";
  ipmi_enabled = true;
  kvmip_enabled = true;
  https_enabled = true;
  http_enabled = true;
  virtual_media_enabled = true;
  ssh_enabled = true;
  ipmi_port = 623;
  kvmip_port = 5288;
  https_port = 443;
  http_port = 80;
  virtual_media_port = 5289;
  ssh_port = 22;
  snmp = record {
    authentication_protocol = codes "Account";
    community_access_mode = codes "Full";
    enable_snmpv1 = true;
    enable_snmpv2c = false;
    enable_snmpv3 = true;
    encryption_protocol = codes "None";
    hide_community_strings = true;
    port = 161;
    protocol_enabled = true;
    community_strings =
        record { access_mode = codes "Full"; community_string = codes "c"; name = codes "n" } ∷ [];
    engine_id = record {
      architecture_id = codes "a";
      enterprise_specific_method = codes "b";
      private_enterprise_id = codes "c";
    };
  };
  ntp = record {
    protocol_enabled = true;
    port = 123;
    primary_ntp_server = codes "p";
    secondary_ntp_server = codes "s";
    date_str = codes "d";
    time_str = codes "t";
    timezone = codes "KST";
    ntp_servers = codes "p" ∷ codes "s" ∷ [];
  };
  status = record { state = codes "Enabled"; health = codes "OK" };
  certificates = none;
}

abbrev new_sessions : SessionService
new_sessions = record sessions {
  service_enabled = false;
  session_timeout = 0;
  session_collection = none;
}

abbrev new_accounts : AccountService
new_accounts = record accounts {
  min_password_length = 0;
  account_collection = none;
  role_collection = none;
}

abbrev new_log : LogService
new_log = record log { max_number_of_records = 0; entry = none; actions = []; record_count = 0 }

abbrev new_protocols : NetworkProtocol
new_protocols = record protocols { ssh_enabled = false; ssh_port = 0; http_port = 0 }

sessions-Savable : Savable base (session_service_json sessions)
unfolding fits resource_json status_json link session_service_json
sessions-Savable = fits-Savable base (session_service_json sessions) refl refl

tasks-Savable : Savable base (task_service_json tasks)
unfolding fits resource_json status_json link task_service_json
tasks-Savable = fits-Savable base (task_service_json tasks) refl refl

accounts-Savable : Savable base (account_service_json accounts)
unfolding fits resource_json status_json link strings account_service_json authentication_json
    setting_json ldap_service_json ldap_json directory_json
accounts-Savable = fits-Savable base (account_service_json accounts) refl refl

subscriber-Savable : Savable base (event_destination_json subscriber)
unfolding fits resource_json status_json strings event_destination_json
subscriber-Savable = fits-Savable base (event_destination_json subscriber) refl refl

events-Savable : Savable base (event_service_json events)
unfolding fits resource_json status_json link strings event_service_json sse_json smtp_json
    action_info
events-Savable = fits-Savable base (event_service_json events) refl refl

log_entry-Savable : Savable base (log_entry_json log_entry)
unfolding fits resource_json strings log_entry_json specific_json
log_entry-Savable = fits-Savable base (log_entry_json log_entry) refl refl

log-Savable : Savable base (log_service_json log)
unfolding fits resource_json status_json link strings items log_service_json filter_json action_info
    action_fields parameter_fields
log-Savable = fits-Savable base (log_service_json log) refl refl

interface-Savable : Savable base (ethernet_json interface)
unfolding fits resource_json status_json strings items ethernet_json dhcp_v4_json dhcp_v6_json
    ipv4_json ipv6_json vlan_json
interface-Savable = fits-Savable base (ethernet_json interface) refl refl

protocols-Savable : Savable base (protocols_json protocols)
unfolding fits resource_json status_json link strings items protocols_json protocol_json ntp_json
    community_json engine_json snmp_json
protocols-Savable = fits-Savable base (protocols_json protocols) refl refl

services_restored_example :
    (perform node_library load_session_service
        (make node_library (session_service_json sessions))
        new_sessions
      ≡ (true, record sessions { session_collection = none }))
    × (perform node_library load_task_service (make node_library (task_service_json tasks)) tasks
        ≡ (true, tasks))
    × (perform node_library load_account_service
          (make node_library (account_service_json accounts))
          (without_lists new_accounts)
        ≡ (true, record accounts { account_collection = none; role_collection = none }))
services_restored_example =
    services_restored node_library node_library-IsLawful sessions new_sessions tasks tasks accounts
      new_accounts sessions-Savable tasks-Savable accounts-Savable

events_and_logs_restored_example :
    (perform node_library load_event_destination
        (make node_library (event_destination_json subscriber))
        (record subscriber { event_types = [] })
      ≡ (true, subscriber))
    × (perform node_library load_event_service
          (make node_library (event_service_json events))
          (record events { event_types_for_subscription = [] })
        ≡ (true, events))
    × (perform node_library load_log_entry (make node_library (log_entry_json log_entry)) log_entry
        ≡ (true, log_entry))
    × (perform node_library load_log_service
          (make node_library (log_service_json log))
          (record new_log { syslog_filters = [] })
        ≡ (true, record log { entry = none; actions = []; record_count = 0 }))
events_and_logs_restored_example =
    events_and_logs_restored node_library node_library-IsLawful subscriber subscriber events events
      log_entry log_entry log new_log subscriber-Savable events-Savable log_entry-Savable
      log-Savable

network_restored_example :
    (perform node_library load_ethernet
        (make node_library (ethernet_json interface))
        (record interface { name_servers = []; v_ipv4 = []; v_ipv6 = [] })
      ≡ (true, interface))
    × (load_ethernet_json node_library
          (make node_library (ethernet_json interface))
          (record interface { name_servers = []; v_ipv4 = []; v_ipv6 = [] })
        ≡ (true, interface))
    × (perform node_library load_protocols
          (make node_library (protocols_json protocols))
          (Protocols.without_lists new_protocols)
        ≡ (true, restored protocols new_protocols))
network_restored_example =
    network_restored node_library node_library-IsLawful interface interface protocols new_protocols
      interface-Savable protocols-Savable
