-- ===== src/Config.antt =====
-- internal/config/config.go: the configuration and its validation. Reading YAML is not modelled.
mod Types
mod Validate
pub use Types.*
unfoldable pub use Validate.*
