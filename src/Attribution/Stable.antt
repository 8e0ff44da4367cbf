-- ===== src/Attribution/Stable.antt =====
-- The snapshot reads of attribution/policy.py on a ledger that has grown past their cutoff.
pub mod Reads
pub mod Guards
pub mod Policy
pub mod Tips
