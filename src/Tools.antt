-- ===== src/Tools.antt =====
-- app/tools/data_tools.py: the read-only views of one customer's data from which an agent's context
-- is built.
pub mod People
pub mod Money
pub mod Cards
pub mod Context
pub mod Snapshot
pub mod Isolation
pub mod Details
pub mod Consent
pub mod Keeps
