-- ===== src/Replay.antt =====
-- replay/reconstruct.py and replay/counterfactual.py: the exact reconstruction of a recorded decision,
-- the counterfactual over the same sealed context, and their comparison.
pub mod Records
pub mod Verify
pub mod Load
pub mod Reconstruct
pub mod Compare
mod Tests
