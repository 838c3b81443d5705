-- ===== src/Soroban.antt =====
-- soroban.go, types_soroban.go: the extractors of the Soroban tables.
pub mod Bodies
pub mod Events
pub mod ContractData
pub mod ContractCode
pub mod RestoredKeys
pub mod Creations
