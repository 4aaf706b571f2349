-- ===== src/Workflow.antt =====
-- core/src/workflow: the graph of a workflow, its validation, branches of the history, and the
-- orchestration of a run.
pub mod Graph
pub mod Validation
pub mod Branch
pub mod Run
pub mod Rehydration
