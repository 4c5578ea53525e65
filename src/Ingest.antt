-- ===== src/Ingest.antt =====
-- The ingest jobs: backend/ingest-svc/src/jobs.rs and backend/ingest-svc/src/jobs. The two tables
-- are those of backend/db-migrate/migrations/001, 002 and 005.
pub mod Validation
pub mod Failures
pub mod Tables
pub mod World
pub mod Statements
pub mod Pipeline
pub mod Recovery
pub mod Summary
pub mod Keeps
pub mod JobsKeep
pub mod RecoveryKeeps
pub mod Columns
pub mod Invariant
pub mod Jobs
pub mod Rows
pub mod Taken
pub mod Settled
pub mod Outcomes
pub mod Run
pub mod RunKeeps
pub mod RunCounts
pub mod Sent
pub mod Enqueued
mod Tests
