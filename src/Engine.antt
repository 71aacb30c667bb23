-- ===== src/Engine.antt =====
-- `WorkflowEngine` of workflows/engine.py, by its operations.
pub mod Start
pub mod Settle
pub mod Cancel
pub mod Execute
