-- ===== src/Async.antt =====
-- async.go: the job manager, with its workers as interleaved steps, and the retries of one job.
pub mod Jobs
pub mod Workers
pub mod Retry
