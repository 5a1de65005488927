-- ===== src/Orders/Confirm.antt =====
-- The confirmation of a receipt (`confirmReceipt` of apps/api/src/orders/orders.service.ts).
use vintage.Prelude.{eq_self, ℕ, ◌≡◌, refl, Option, some}
use vintage.Prelude.Dict.{lookup}
use vintage.World.{World, Order, OrderStatus, order_is}
use vintage.World.Action.{Exception, actions, err}
use vintage.World.Tables.{orders, claim_loses, find_unique}
use vintage.Orders.Escrow.{confirm_receipt, enter_hold}

enter_hold-refused :
    (other : World → World) (c : Option ℕ) (id : ℕ) (o : Order) (w : World)
    → lookup id w.orders ≡ some o
    → o.status ≡ OrderStatus.shipped
    → enter_hold other c id w ≡ (err Exception.bad_request, w)
unfolding enter_hold actions
enter_hold-refused other c id o w e s =
    rw (claim_loses orders id (λ x. order_is x.status OrderStatus.delivered) _ w e (rw s refl)) refl

-- `confirmReceipt` accepts a shipped order in its own guard, but a shipped order is never
-- confirmed: where the order is still shipped at the claim, the buyer is refused and nothing is
-- written.
pub confirm_receipt-shipped :
    (other : World → World) (c : Option ℕ) (id : ℕ) (o p : Order) (w : World)
    → lookup id w.orders ≡ some o
    → o.status ≡ OrderStatus.shipped
    → lookup id (other w).orders ≡ some p
    → p.status ≡ OrderStatus.shipped
    → confirm_receipt other c id o.buyer w ≡ (err Exception.bad_request, other w)
unfolding confirm_receipt find_unique actions
confirm_receipt-shipped other c id o p w e s e' s' =
    rw e (rw (s, eq_self o.buyer) (enter_hold-refused other c id p (other w) e' s'))
