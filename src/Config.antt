-- ===== src/Config.antt =====
-- src/config: the settings.
pub mod Types
pub mod Json
pub mod Loader
pub mod Valid
