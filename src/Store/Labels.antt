-- ===== src/Store/Labels.antt =====
-- reviewer/state.py: the decisions on approval labels. A signed webhook of a label is compared with
-- the label timeline of its pull request, and the decision is written with its evidence, its effects
-- and its notices in one transaction.
pub mod Record
pub mod Timeline
pub mod Judge
pub mod Accept
pub mod Apply
pub mod Expire
pub mod Queue
pub mod Effects
pub mod Decided
pub mod Closed
pub mod Again
pub mod Sound
pub mod Generations
pub mod Approves
pub mod Keeps
pub mod Stays
