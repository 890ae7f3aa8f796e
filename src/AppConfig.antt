-- ===== src/AppConfig.antt =====
-- The application configuration (internal/appconfig).
pub mod Types
pub mod Errors
pub mod Externals
pub mod Names
pub mod Paths
pub mod Normalize
pub mod Validate
pub mod Parse
