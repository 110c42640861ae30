-- ===== src/Matching.antt =====
-- internal/matching: the matchers and the managers of stop and iceberg orders.
pub mod Fill
pub mod Limit
pub mod Market
pub mod Iceberg
pub mod Stop
pub mod Step
pub mod Ready
pub mod Crossing
pub mod Sweep
pub mod Loop
pub mod Side
pub mod Cleared
pub mod Plan
pub mod Walk
pub mod Priority
pub mod OneLevel
pub mod Fresh
pub mod Supply
pub mod Composed
pub mod Divergence
