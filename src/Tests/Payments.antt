-- ===== src/Tests/Payments.antt =====
-- The theorems on payment attempts, on the provider's verdict and on coupons, used on the marketplace.
use vintage.Prelude.{◌≡◌, refl, none, [], ◌∷◌, ◌↔◌, arith}
use vintage.World.{World, Order, OrderStatus, PaymentMethod}
use vintage.World.Action.{ok, actions, throw, pure}
use vintage.World.Tables.{find_unique, create}
use vintage.Provider.{Provider, ProviderStatus, DetailAnswer}
use vintage.Payments.Reconcile.{ReconcileOutcome, reconcile_order}
use vintage.Payments.Attempts.{reserve_attempt, validate_amount}
use vintage.Payments.Verdict.{AllFailed, reconcile_order-mint}
use vintage.System.{Request, Schedule, run}
use vintage.System.Single.{Single, run-Single}
use vintage.System.Capped.{Capped, run-Capped}
use vintage.Tests.{a_world, an_order, env, provider, a_request, selling}

-- The order 5 waits for payment.
abbrev pub an_unpaid_order : Order
an_unpaid_order = record (an_order OrderStatus.pending) { payment_id = none }

abbrev pub unpaid : World
unpaid = record (a_world OrderStatus.pending) { orders = (5, an_unpaid_order) ∷ [] }

-- The buyer asks for a PIX and, at the same time, for a boleto.
abbrev two_attempts : Schedule
two_attempts =
    Schedule.serve (Request.pay_pix 5 2)
      (Schedule.serve (Request.pay_boleto 5 2) Schedule.done Schedule.done) Schedule.done

Single-unpaid : Single unpaid
Single-unpaid o = omega arith

run-Single_example : Single (run env two_attempts unpaid)
run-Single_example = run-Single env two_attempts unpaid Single-unpaid

-- Two requests at the same time for the last use of the coupon 3.
abbrev two_orders : Schedule
two_orders =
    Schedule.serve (Request.place 2 a_request)
      (Schedule.serve (Request.place 4 a_request) Schedule.done Schedule.done) Schedule.done

Capped-selling : Capped selling
Capped-selling c x e = ground (arith, e)

run-Capped_example : Capped (run env two_orders selling)
run-Capped_example = run-Capped env two_orders selling Capped-selling

reconcile_order-mint_example :
    (reconcile_order provider 1000 5 ≡ ReconcileOutcome.mint)
    ↔ AllFailed (provider.payment_detail 1000) (provider.search_payments 1000 5)
reconcile_order-mint_example = reconcile_order-mint provider 1000 5

-- The instrument 900 of every order can still be paid.
abbrev waiting : Provider
waiting = record provider {
  payment_detail = λ now p. DetailAnswer.detail ProviderStatus.in_process none;
}

adopts : reconcile_order waiting 1000 5 ≡ ReconcileOutcome.adopt 900
unfolding reconcile_order
adopts = refl

abbrev reserved_world : World
reserved_world = (reserve_attempt 5 2 PaymentMethod.pix unpaid).1

reserved : reserve_attempt 5 2 PaymentMethod.pix unpaid ≡ (ok 100, reserved_world)
unfolding reserve_attempt validate_amount find_unique create actions throw pure
reserved = refl
