-- ===== src/Store.antt =====
-- reviewer/state.py: the state store, a SQLite database behind one lock. A transaction that raises
-- is rolled back, so a method is a function from a store to a new store with a result, or to an
-- error alone.
pub mod Tables
pub mod Invalidate
pub mod Ingest
pub mod Consistent
pub mod Jobs
pub mod Attempts
pub mod Outbox
pub mod Reconciliations
pub mod Publications
pub mod Labels
pub mod Descriptors
pub mod Requests
pub mod Contexts
pub mod Reach
