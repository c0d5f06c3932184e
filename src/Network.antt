-- ===== src/Network.antt =====
-- The network configuration files: src/ethernetinterface.cpp.
pub mod Lines
pub mod Interfaces
pub mod Hosts
pub mod Firewall
