-- ===== src/Planning.antt =====
-- app/planning: the schemas of the planning output and the dumps that the program stores.
mod Schemas
mod Dump
unfoldable pub use Schemas.*
unfoldable pub use Dump.*
