-- ===== src/Tests.antt =====
-- Runs of the code at concrete inputs.
mod Fixture
mod Saved
mod Reloads
mod Restored
mod Services
mod Handlers
mod Numbers
mod Texts
mod Files
mod Tables
mod Successes
mod Sessions
mod Accounts
mod Events
mod Logs
mod Modules
