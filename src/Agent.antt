-- ===== src/Agent.antt =====
-- app/agent: the investigation graph, its nodes and its state.
pub mod State
pub mod Planner
pub mod Executor
pub mod Completion
pub mod Graph
