-- ===== src/Tests.antt =====
-- Runs of the models, and the theorems at concrete inputs.
pub mod Store
pub mod Consensus
pub mod Log
pub mod Membership
pub mod Network
pub mod Exchange
pub mod Transactions
pub mod Cluster
pub mod Client
pub mod Elections
pub mod Sdk
pub mod Harness
