-- ===== src/Orders.antt =====
-- The life of an order (apps/api/src/orders/orders.service.ts, and the overrides of
-- apps/api/src/admin-analytics/admin-orders.controller.ts).
mod Lifecycle
mod Escrow
mod Overrides
pub mod Release
pub mod Confirm
unfoldable pub use Lifecycle.*
unfoldable pub use Escrow.*
unfoldable pub use Overrides.*
