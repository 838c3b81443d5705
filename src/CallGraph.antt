-- ===== src/CallGraph.antt =====
-- call_graph.go
pub mod FnName
pub mod Names
pub mod Calls
pub mod Events
pub mod Auth
pub mod Credentials
pub mod Extract
