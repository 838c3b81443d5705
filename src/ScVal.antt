-- ===== src/ScVal.antt =====
-- scval_converter.go
pub mod Json
pub mod Integers
pub mod Addresses
pub mod Convert
