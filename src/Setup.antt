-- ===== src/Setup.antt =====
-- static/websetup/websetup.js: the page that configures the manager.
pub mod Predefined
pub mod Variables
pub mod Toggle
pub mod Config
pub mod Link
pub mod Tables
pub mod Components
pub mod Yaml
pub mod Ready
pub mod Reopen
