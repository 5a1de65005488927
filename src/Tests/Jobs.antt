-- ===== src/Tests/Jobs.antt =====
-- The theorems on scheduled jobs, used on the marketplace.
use vintage.Prelude.{◌≡◌, refl, true, some, [], ◌∷◌}
use vintage.World.{World, Order, OrderStatus}
use vintage.OrdersCron.{release_held_escrow}
use vintage.OrdersCron.Released.{status_in, is_completed, release_held_escrow-completes}
use vintage.Tests.{a_world, an_order}

-- The order 5 is held, and its time has come.
abbrev due_order : Order
due_order = record (an_order OrderStatus.held) { escrow_releases_at = some 900 }

abbrev holding : World
holding = record (a_world OrderStatus.held) { orders = (5, due_order) ∷ [] }

release_held_escrow-completes_example :
    status_in is_completed 5 (release_held_escrow (λ v. v) holding).1.orders ≡ true
release_held_escrow-completes_example =
    release_held_escrow-completes 5 due_order holding refl refl refl
