-- ===== src/Config.antt =====
-- internal/config: the configuration of a run.
pub mod Envsubst
pub mod Model
pub mod Validator
