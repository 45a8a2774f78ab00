-- ===== src/Session.antt =====
-- session/: the runtime over one websocket. `Channel` is channel.rs, `Core` is core.rs and
-- `Handshake` is handshake.rs; `Errors` is error.rs.
pub mod Errors
pub mod Channel
pub mod Core
pub mod Handshake
