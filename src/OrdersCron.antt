-- ===== src/OrdersCron.antt =====
-- The hourly jobs on orders (apps/api/src/orders/orders-cron.service.ts).
mod Confirm
mod Cancel
pub mod Routes
pub mod Released
mod Escalate
unfoldable pub use Escalate.*
unfoldable pub use Confirm.*
unfoldable pub use Cancel.*
