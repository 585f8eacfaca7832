-- ===== src/Scoring.antt =====
-- app/tools/_core/pattern_logic.py: the pattern scores and the severity that follows from them.
pub mod Tally
pub mod Amount
pub mod Time
pub mod Windows
pub mod CardTesting
pub mod Severity
pub mod Bounds
pub mod Total
pub mod Levels
