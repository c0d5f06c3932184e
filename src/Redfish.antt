-- ===== src/Redfish.antt =====
-- The accounts, roles and sessions of the Redfish service, with the store that they live in.
pub mod Json
pub mod Store
pub mod Monad
pub mod Goes
pub mod Inverts
pub mod Search
pub mod Rules
pub mod Valid
pub mod Session
pub mod Guard
pub mod Account
pub mod Role
pub mod Event
pub mod Reload
