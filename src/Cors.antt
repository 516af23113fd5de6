-- ===== src/Cors.antt =====
-- handlers/cors/cors.go: the handler of Cross-Origin requests and the one of preflight requests. A
-- set is the list of its members in the order in which a `range` loop visits them.
pub mod Sets
pub mod Serve
pub mod Preflight
pub mod Laws
pub mod Untouched
pub mod Granted
mod Examples
