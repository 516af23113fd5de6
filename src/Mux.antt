-- ===== src/Mux.antt =====
-- multiplexer.go: the multiplexer that dispatches on path and method. Its state is a record; a
-- method of *ServeMux returns the new state, or `none` where the call panics. The parts that
-- net/http supplies, its own multiplexer and http.NewRequest, are a parameter.
pub mod Verbs
pub mod Route
pub mod Register
pub mod Dispatch
pub mod PathMatch
pub mod Longest
pub mod Served
pub mod Segments
mod Examples
