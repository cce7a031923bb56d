-- ===== src/Approval.antt =====
-- reviewer/approval.py: the states, constants and checks of label approvals. The fold of a label
-- timeline, the evaluation of an approval's time to live and the status machine are the children.
pub mod Checks
pub mod Labels
pub mod Ttl
pub mod Status
pub mod Context
