-- ===== src/Models.antt =====
-- src/models: the records that the services, the queue and the database exchange.
-- A date is its Unix time in milliseconds; an optional field is an `Option`.
pub mod Json
pub mod Job
pub mod Filter
pub mod Worker
pub mod ExecutionLog
pub mod Schedule
