-- ===== src/Tests.antt =====
-- Runs of the development at concrete inputs.
mod Projections
mod Stores
mod Commands
mod Views
mod Waits
mod Upcasts
mod Revisions
mod Reads
mod Failures
mod Caches
mod Queries
mod Subjects
mod Running
mod Requests
mod Schemas
mod Dispatches
