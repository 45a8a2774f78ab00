-- ===== src/Session/Core.antt =====
-- session/core.rs: the session's state, what its driver does, and the calls of its users.
pub mod State
pub mod Alloc
pub mod Outbound
pub mod Inbound
pub mod Server
pub mod Client
pub mod Loops
pub mod Dispatch
pub mod Finish
pub mod Routing
pub mod Table
