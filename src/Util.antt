-- ===== src/Util.antt =====
-- src/util.cpp: the string helpers and the validators.
pub mod Split
pub mod Names
pub mod Stoi
pub mod Validate
