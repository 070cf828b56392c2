-- ===== src/Revision.antt =====
-- Revisions: architecturekit/revision.go.
mod Parse
mod Order
mod Highest
mod Written
mod Tracking
unfoldable pub use Parse.*
unfoldable pub use Order.*
unfoldable pub use Highest.*
unfoldable pub use Written.*
unfoldable pub use Tracking.*
