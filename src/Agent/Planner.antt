-- ===== src/Agent/Planner.antt =====
-- app/agent/planner.py: the node that selects the next tool.
pub mod Rules
pub mod Payload
pub mod Llm
pub mod Node
pub mod Sequencing
pub mod Fallback
pub mod Repair
pub mod Circuit
pub mod Choosing
pub mod Braces
pub mod Refusals
pub mod Reading
