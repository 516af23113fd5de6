-- ===== src/Session.antt =====
-- handlers/session: the session cookie and the session handler.
pub mod Value
pub mod Cookie
pub mod Codec
pub mod Lifetime
pub mod RoundTrip
pub mod Action
pub mod Handler
pub mod Load
pub mod Samples
mod Examples
pub mod Memory
pub mod Setup
