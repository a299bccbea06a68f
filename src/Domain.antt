-- ===== src/Domain.antt =====
-- gtasks/domain.py: the progress of a task, `ProgressMetric` and `EventProgress`, read from decoded JSON and
-- written back.
pub mod Metrics
pub mod Normal
pub mod QueueMetric
pub mod Queue
mod Tests
