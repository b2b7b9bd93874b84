-- ===== src/Mongo.antt =====
-- The document store behind src/common/repositories/base-repo.ts. The driver is not part of the
-- program: it is a parameter, with what the services rely on as its laws. A collection maps
-- identifiers to documents, and a single update is atomic.
mod Interface
pub mod ListStore
mod Updates
mod Queries
mod Apart
pub use Interface.*
pub use Updates.{update_was, update_here}
pub use Queries.{Found-All, find_iff, first_find-some, first_find-none, first_find-insert}
pub use Apart.{IsApart, update-IsApart, insert-IsApart}
pub use ListStore.{list_mongo}
