-- ===== src/Rag/Workflow.antt =====
-- The answer workflow, rag/workflow.py.
pub mod Traces
pub mod State
pub mod Nodes
pub mod Graph
pub mod Rules
pub mod Ready
pub mod Steps
pub mod Runs
pub mod Reported
