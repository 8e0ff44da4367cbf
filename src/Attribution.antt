-- ===== src/Attribution.antt =====
-- attribution/policy.py: `outcome-attribution-v1`. The definitions stand in `Records`, `Snapshot`,
-- `Claims`, `Attribute` and `Selection`.
pub mod Records
pub mod Snapshot
pub mod Claims
pub mod Attribute
pub mod Stable
pub mod Selection
pub mod Eligibility
pub mod Recency
pub mod Standing
pub mod Verdicts
pub mod Invalid
pub mod Resolution
pub mod Effective
pub mod Tips
mod Tests
