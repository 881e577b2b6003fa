-- ===== src/Graph.antt =====
-- The scoring pipeline: control-plane/src/domains/graph.
pub mod ScoreWriter
pub mod Scheduler
pub mod Grouping
pub mod Loader
pub mod Recompute
