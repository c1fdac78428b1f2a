-- ===== src/RateLimit.antt =====
-- internal/ratelimit: the token bucket of one key, and the manager of all keys.
pub mod Bucket
pub mod Manager
pub mod Tests
