-- ===== src/Lib.antt =====
-- The resource server of a chassis management module, and what is proved of it.
--
-- The program serves a Redfish tree over HTTP. A request ends in a handler of src/task.cpp.
-- Handlers work on resources (include/resource.hpp) that stand on the heap, are found through the
-- table `g_record`, and are saved as files by src/record.cpp. Names and URIs are cut by
-- src/util.cpp, which also hands out the numbers of accounts, sessions and subscriptions. Settings
-- of the network are written to files by src/ethernetinterface.cpp and to iptables by
-- src/resource.cpp.
--
-- Common: shared names; texts are lists of bytes, numbers are native, and the `std::string`
--   searches are written out. `Common.Decimal` is `std::to_string` of a number that is not
--   negative, `Common.Int` is `int` with it.
-- Util: src/util.cpp. `Util.Split` is `string_split` and `make_path`, `Util.Names` the functions
--   that take a URI apart, `Util.Validate` the validators, `Util.Stoi` is `improved_stoi`, where a
--   number that no `int` holds gives none. The loop of `string_split` runs on fuel one above the
--   length of the text; each round consumes a character.
-- Numset: `allocate_numset_num`, `insert_numset_num`, `delete_numset_num` of src/util.cpp and
--   `init_numset` of src/init.cpp. The search runs on fuel of two rounds over all values. Numbers
--   are those of `unsigned int`; the wrap at UINT_MAX is the code's own.
-- Redfish: a store is a heap of accounts, roles, sessions and subscriptions, the table, the member
--   lists of the four collections, the settings that the handlers read, the number sets and a log
--   of saved and removed files. Handlers are programs of `Redfish.Monad`: they may reply early,
--   throw, or be undefined when a bad pointer is followed. A null entry of the table is an address
--   at which nothing lives (`Redfish.Store.subscript`). `Redfish.Session`, `Redfish.Account` and
--   `Redfish.Role` hold `make_session`, `remove_session`, `make_account`, `make_role`,
--   `modify_role` and `remove_role` of src/task.cpp with the constructors of include/resource.hpp
--   and the lookups of src/resource.cpp; `Redfish.Account.Patch` and `Redfish.Account.Remove` are
--   `modify_account` and `remove_account`. `Redfish.Session.Timer` is `timer` of src/util.cpp,
--   `Session::start` of src/resource.cpp and the timeout of `patch_session_service`; the task runs
--   on fuel of one tick more than the seconds left. `Redfish.Event` is src/eventservice.cpp with
--   `make_subscription` and `remove_subscription`. `Redfish.Reload` is `dependency_injection` of
--   src/record.cpp for these four classes, which connects what `record_load_json` loaded.
--   `Redfish.Guard` is the check of X-Auth-Token that the role handlers share.
-- Network: `change_interface_file` and `change_hosts_file` of src/ethernetinterface.cpp, from the
--   lines read to the lines written, and the iptables commands of src/resource.cpp. A port is any
--   `int`; what iptables does is assumed for ports from 0 to 65535 alone.
-- Log: `generate_log` and `make_log` of src/logservice.cpp, on a table of its own: services,
--   collections and entries by URI.
-- Chassis: `insert_module_id` of src/chassis_controller.cpp, from the serialized answer to the text
--   that is parsed, on fuel of one round for each byte and one more. `Chassis.Table` is the table
--   of modules: `show_ssdp_packet` of src/handler.cpp, whose search for an id runs on fuel of two
--   rounds more than the table has entries, and `module_check_handler`. The number of an id is an
--   `int`, and raising it above INT_MAX gives none.
-- Persist: how resources are saved and loaded. A `Node` is the value that a `get_json` of
--   src/resource.cpp assigns, `Steps` is what a `load_json` reads, in its order, and
--   `Persist.perform` runs the steps with a library. `Persist.Base` is `Resource`,
--   `get_action_info` and `get_resource_odata_id_json`; the other modules are the classes:
--   `Persist.Accounts` roles, accounts and sessions, `Persist.Services` and
--   `Persist.AccountService` services, `Persist.Events` and `Persist.Logs` subscriptions, events
--   and logs, `Persist.Entries` log entries, `Persist.Ethernet` and `Persist.Protocols` the
--   network. Numbers are not negative there. `Persist.Correct` is about all of them.
-- Tests: the theorems at concrete inputs.
--
-- The JSON library (`Redfish.Json`, `Persist.Library` with the laws `Persist.IsLawful`), whether a
-- module answers a request, and iptables (`Network.Firewall.Tables`) are parameters; for iptables
-- the documented effect of the commands is assumed. A token that `generate_token` draws and the
-- flag that a new role finds in memory are arguments. Time, threads, log output and the text of the
-- files of resources are left out, as are the resources that only describe hardware, the remaining
-- handlers, and the calls of hardware and commands. A value that is read back is one that was
-- written: numbers below zero are left out of the saved resources.
pub mod Common
pub mod Util
pub mod Numset
pub mod Redfish
pub mod Network
pub mod Log
pub mod Chassis
pub mod Persist
pub mod Tests
