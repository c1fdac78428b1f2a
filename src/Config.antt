-- ===== src/Config.antt =====
-- internal/config/config.go: the environment, the .env file, and the configuration read from them.
pub mod Env
pub mod DotEnv
pub mod Load
pub mod Tests
