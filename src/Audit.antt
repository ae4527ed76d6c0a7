-- ===== src/Audit.antt =====
-- splitEvaluations/audit_joern_results.py: the audit of saved sweep results.
pub mod Clusters
pub mod Rows
pub mod Relaxed
pub mod Misses
