-- ===== src/Ctrl.antt =====
-- ctrl.rs and step.rs: the CTRL messages, who may send them, and the frames that carry them.
pub mod ErrorCode
pub mod OpenErrorCode
pub mod Step
pub mod Types
pub mod Direction
pub mod Features
pub mod Json
pub mod Secrets
