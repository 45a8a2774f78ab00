-- ===== src/Examples.antt =====
-- The theorems at concrete inputs.
pub mod Frames
pub mod Flows
pub mod Ctrls
pub mod Channels
pub mod Sessions
pub mod Handshakes
pub mod Workflows
pub mod Proxies
