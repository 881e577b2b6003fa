-- ===== src/Decision.antt =====
-- control-plane/src/domains/decision: the ingest of the decisions that edge nodes report.
pub mod Sample
pub mod Batch
pub mod Ingest
