-- ===== src/Projection.antt =====
-- Projections: architecturekit/projection.go and architecturekit/projection_run.go, and the health
-- of architecturekit/httpapi/health.go.
pub mod Status
pub mod Consistency
pub mod Verdict
pub mod Drive
pub mod Transactions
pub mod Folding
pub mod Batches
pub mod Rounds
pub mod InStep
pub mod Writers
pub mod Running
pub mod Reconnecting
pub mod Sessions
pub mod Reliable
pub mod Kept
pub mod Once
pub mod Complete
