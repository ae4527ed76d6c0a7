-- ===== src/Pipeline.antt =====
-- auditzoo/agents/cwe78_study/pipeline.py: the evidence shown to the language model, the gate on new
-- sinks, and the rounds of the Joern arm.
pub mod Words
pub mod Evidence
pub mod Gate
pub mod Refine
pub mod Scan
pub mod Rounds
pub mod Target
