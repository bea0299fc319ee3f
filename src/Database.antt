-- ===== src/Database.antt =====
-- The database session of one request (app/core/database.py, app/models/base.py and SQLModel's
-- session as the code uses it). A request reads and writes the session's view of the tables;
-- `db.commit()` makes the view permanent, and what a failed request did not commit is lost. A
-- function of the source is an action: it returns or raises, and leaves the state either way.
mod Tables
mod Actions
pub mod Rows
pub mod Keeps
pub mod Reads
pub mod Yields
unfoldable pub use Tables.*
unfoldable pub use Actions.*
