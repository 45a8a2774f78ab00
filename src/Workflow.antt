-- ===== src/Workflow.antt =====
-- The crate ez-workflow: the workflows file, its templates, its validation, runs and dry runs.
pub mod Json
pub mod Engine
pub mod Schema
pub mod Event
pub mod Run
pub mod Report
pub mod Glob
pub mod Modes
pub mod Validate
pub mod DryRun
