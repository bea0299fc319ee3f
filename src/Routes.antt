-- ===== src/Routes.antt =====
-- app/api/routes: what a client can ask for, and who may.
pub mod Customers
pub mod Access
pub mod Push
pub mod Subscriptions
pub mod Workflows
pub mod Entry
