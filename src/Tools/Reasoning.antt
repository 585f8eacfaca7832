-- ===== src/Tools/Reasoning.antt =====
-- app/tools/reasoning_tool.py: what `_calibrate_llm_severity` makes of the severity that the LLM
-- gives; and the guards around the LLM in app/tools/_core/reasoning_logic.py. The texts of the
-- prompts and the call of the LLM are not modelled.
pub mod Evidence
pub mod Calibration
pub mod Settling
pub mod Guard
pub mod Output
pub mod Sanitized
pub mod Response
pub mod Prompt
