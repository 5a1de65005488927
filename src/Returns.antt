-- ===== src/Returns.antt =====
-- Returns (apps/api/src/returns/returns.service.ts).
mod Request
mod Inspect
pub mod Refund
pub mod Exclusive
unfoldable pub use Request.*
unfoldable pub use Inspect.*
