-- ===== src/Collector.antt =====
-- collector/service.py and collector/projections.py: the one way into the ledger. An envelope is
-- checked against what is stored, and then written with its projections, in one transaction.
pub mod Envelope
pub mod References
pub mod Attributed
pub mod Project
pub mod Service
pub mod Models
pub mod Contract
pub mod Accepted
pub mod Appends
pub mod Written
pub mod Reachable
pub mod Recorded
pub mod Attested
pub mod Settled
pub mod Replayed
pub mod Submitted
pub mod Keys
pub mod Sealed
pub mod Linked
pub mod Tests
mod JsonTests
