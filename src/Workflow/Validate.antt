-- ===== src/Workflow/Validate.antt =====
-- ez/crates/ez-workflow/src/validate.rs: the checks of a file, of a workflow and of its edges.
pub mod Refs
pub mod Nodes
pub mod Reach
pub mod File
pub mod Sound
