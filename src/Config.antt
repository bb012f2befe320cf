-- ===== src/Config.antt =====
-- src/config.rs: the configuration file's schema, its validation, and the runtime configuration.
-- `serde` and `toml` read the file, so a `Config` value is where the model begins.
pub mod Schema
pub mod Runtime
pub mod Load
pub mod Fits
pub mod Accepts
pub mod Valid
pub mod File
