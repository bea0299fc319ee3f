-- ===== src/AgentJobs.antt =====
-- app/agent_jobs: the planning worker and the dispatcher of agent jobs.
pub mod Outputs
pub mod Checked
pub mod Schema
pub mod Codex
mod Assess
mod Asset
mod Insurance
mod LocalStub
mod Dispatcher
unfoldable pub use LocalStub.{build_local_stub_output}
unfoldable pub use Dispatcher.*
