-- ===== src/OrdersCron/Confirm.antt =====
-- `autoConfirmOrders` and `releaseHeldEscrow` of apps/api/src/orders/orders-cron.service.ts.
use vintage.Prelude.{ℕ, Bool, false, Option, none, some, not, ◌&&◌, ltb, leb}
use vintage.World.{World, Order, OrderStatus, order_is}
use vintage.World.Action.{Action, ◌>>=◌, ◌>>◌, when, swallow, for_each, interleave}
use vintage.World.Tables.{orders, find_many, has_dispute, has_return}
use vintage.CronLock.{acquire}
use vintage.Orders.{enter_hold, finalize_escrow}

-- `{ lt: now }` and `{ lte: now }` on a column that may be null.
abbrev pub before : Option ℕ → ℕ → Bool
before none now = false
before (some t) now = ltb t now

abbrev pub at_or_before : Option ℕ → ℕ → Bool
at_or_before none now = false
at_or_before (some t) now = leb t now

-- The ids of the locks, 'orders:autoConfirm' and so on, in the order of the file.
abbrev auto_confirm_lock : ℕ
auto_confirm_lock = 0

abbrev pub release_held_lock : ℕ
release_held_lock = 1

-- One round of the loop.
unfoldable pub confirm_one : (World → World) → Option ℕ → ℕ × Order → Action (Unit {0})
confirm_one meanwhile configured (id, o) = do
  interleave meanwhile
  swallow (enter_hold meanwhile configured id)

unfoldable pub auto_confirm_orders : (World → World) → Option ℕ → Action (Unit {0})
auto_confirm_orders meanwhile configured = do
  acquired ← acquire auto_confirm_lock
  when acquired (do
    expired ←
        find_many orders
          (λ w id o. order_is o.status OrderStatus.delivered && before o.dispute_deadline w.now)
    for_each expired (confirm_one meanwhile configured))

-- What `releaseHeldEscrow` asks of an order.
abbrev pub is_releasable : World → ℕ → Order → Bool
is_releasable w id o =
    order_is o.status OrderStatus.held
    && (at_or_before o.escrow_releases_at w.now
        && (not (has_dispute id w) && not (has_return id w)))

unfoldable pub release_one : (World → World) → ℕ × Order → Action (Unit {0})
release_one meanwhile (id, o) = do interleave meanwhile; swallow (finalize_escrow meanwhile id)

unfoldable pub release_held_escrow : (World → World) → Action (Unit {0})
release_held_escrow meanwhile = do
  acquired ← acquire release_held_lock
  when acquired (do ready ← find_many orders is_releasable; for_each ready (release_one meanwhile))
