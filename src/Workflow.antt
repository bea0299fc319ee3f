-- ===== src/Workflow.antt =====
-- app/workflows: the graph of one workflow run and the service around it.
mod State
mod Helpers
mod Nodes
mod Decisions
mod Graph
pub mod Invariants
pub mod Approval
pub mod Pending
pub mod Effects
pub mod Outcome
pub mod Deciding
pub mod Service
pub mod Threads
pub mod Entry
pub mod Reuse
pub mod Walk
pub mod Awaiting
pub mod Awaits
unfoldable pub use State.*
unfoldable pub use Helpers.*
unfoldable pub use Nodes.*
unfoldable pub use Decisions.*
unfoldable pub use Graph.*
