-- ===== src/Go.antt =====
-- What the extractors use of Go and its standard library.
pub mod Ints
pub mod Strings
pub mod Utf8
pub mod Maps
pub mod Slices
