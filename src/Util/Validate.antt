-- ===== src/Util/Validate.antt =====
-- The validators of src/util.cpp.
pub mod Clock
pub mod Address
pub mod Options
