-- ===== src/Examples.antt =====
-- Runs of the modelled code on concrete inputs.
mod Data
mod Lifecycle
mod Labels
mod Ttl
mod Jobs
mod Attempts
mod Deliveries
mod Outgoing
mod Gate
mod Queue
mod Review
mod Approvals
mod Merges
mod Histories
