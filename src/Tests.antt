-- ===== src/Tests.antt =====
-- The sample data of the tests, and the theorems at concrete inputs.
mod Schemas
mod Samples
mod Executions
mod Decisions
mod Agents
mod Threads
mod Withdrawals
mod Contexts
mod Requests
