-- ===== src/Executor.antt =====
-- app/executor/handlers.py: the execution of an approved or automatic proposal. `Handlers` has the
-- effect of each kind of proposal on the mock tables, `Scoped` the checks and the record around it.
mod Handlers
mod Scoped
pub mod Frame
pub mod Gate
pub mod Runs
pub mod Settled
unfoldable pub use Handlers.*
unfoldable pub use Scoped.*
