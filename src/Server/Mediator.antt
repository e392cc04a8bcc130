-- ===== src/Server/Mediator.antt =====
-- internal/server/mediator.go: the actor that selects a truth for each account and pushes it.
-- State has its types, Select, Push, Reselect and Events its functions; the rest are proofs.
pub mod State
pub mod Select
pub mod Push
pub mod Reselect
pub mod Events
pub mod Buckets
pub mod Best
pub mod Targets
pub mod Losing
pub mod Rounds
pub mod Judge
pub mod Truths
pub mod Choice
pub mod Partition
pub mod CatchUp
pub mod Invariant
pub mod Totality
pub mod Genuine
