-- ===== src/Engine.antt =====
-- internal/engine: running the registry over a fleet of targets, and the metrics of a run.
pub mod Results
pub mod Execute
pub mod Metrics
pub mod Pool
pub mod Run
pub mod Governor
