-- ===== src/Domain.antt =====
-- internal/domain/model.go: the records that the service keeps. A `time.Time` is a number of
-- nanoseconds, with 0 for the zero time; an `int` that counts is a natural number.
-- The children: the task state machine, and the laws of its audit trail.
pub mod Records
pub mod Task
pub mod Audit
