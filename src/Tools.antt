-- ===== src/Tools.antt =====
-- app/tools: the tools that the executor runs.
pub mod PatternTool
pub mod Reasoning
pub mod Candidates
pub mod Context
pub mod LinkAnalysis
pub mod Recommendation
pub mod Draft
pub mod RuleDraft
