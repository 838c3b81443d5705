-- ===== src/State.antt =====
-- state.go
pub mod ConfigSettings
pub mod Ttl
