-- ===== src/Platform.antt =====
-- The platform database that both services share: temp/libs/platform_db/src/platform_db/models.
pub mod Table
pub mod Keyed
pub mod Rows
pub mod Consistency
pub mod Update
