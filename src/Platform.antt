-- ===== src/Platform.antt =====
-- The platform layer in src/platform: mutexes and condition variables.
pub mod Mutex
