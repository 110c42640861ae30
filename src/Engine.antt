-- ===== src/Engine.antt =====
-- internal/engine: processing of orders in a market (`Process`), triggered stop orders (`Triggered`), the
-- calls of the engine (`Api`, `Submission`) and the chain of event handlers (`Events`).
pub mod Process
pub mod Triggered
pub mod Submission
pub mod Api
pub mod Events
pub mod Cancelled
pub mod Restored
pub mod Handlers
