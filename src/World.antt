-- ===== src/World.antt =====
-- The database that the services share (apps/api/prisma/schema.prisma), and actions on it.
mod Rows
mod State
pub mod Action
pub mod Keeps
pub mod Ensures
pub mod Tables
pub mod Reads
pub use Rows.*
pub use State.*
