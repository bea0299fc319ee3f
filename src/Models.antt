-- ===== src/Models.antt =====
-- app/models: the rows of the tables. A time is the number of microseconds since the epoch.
mod Agent
mod Workflow
mod Finance
mod People
unfoldable pub use Agent.*
unfoldable pub use Workflow.*
unfoldable pub use Finance.*
unfoldable pub use People.*
