-- ===== src/System/Keeps.antt =====
-- Invariants of requests and schedules, where other requests commit in between.
use vintage.Prelude.{ℕ, ◌+◌, ◌≡◌, refl, Bool, true, Option, arith}
use vintage.World.{World, Order, OrderReturn, Referral}
use vintage.World.Keeps.{Keeps}
use vintage.System.Invariant.{Invariant, Reholds, basic_rules, invariant_rules}
use vintage.System.Minting.{minting_rules}
use vintage.System.Bargains.{bargain_rules}
use vintage.System.Sales.{sale_rules}
use vintage.System.Access.{access_rules}
use vintage.System.Transactions.{transaction_rules}
use vintage.Provider.{Provider, PayoutAnswer}
use vintage.Referrals.{credit_referral, credit_if_eligible}
use vintage.Orders.{
  cancel_by_buyer, mark_shipped, mark_delivered_internal, confirm_receipt, enter_hold,
  finalize_escrow, release_tx, force_release, force_hold, force_hold_tx,
}
use vintage.OrdersCron.{
  confirm_one, auto_confirm_orders, release_one, release_held_escrow, cancel_unshipped,
  auto_cancel_unshipped_orders, cancel_stale_pending, cancel_stale_pending_orders, escalate_stale,
  escalate_stale_returns, escalate_shipment, escalate_stuck_shipments,
}
use vintage.Disputes.{create_dispute, refund_buyer, resolve}
use vintage.Returns.{
  create_return, approve_return, reject_return, mark_return_shipped, mark_received_by_tracking,
  inspect_approve, inspect_reject,
}
use vintage.Payouts.{send_payout, request_payout, mark_failed, mark_completed}
use vintage.Checkout.Place.{OrderRequest, place_order, create_order}
use vintage.System.{Env, Request, Schedule, reply, perform, run, is_force_hold, has_force_hold}

module _ {P : World → Type 0} (inv : Invariant P) (meanwhile : World → World)
    (rely : (w : World) → P w → P (meanwhile w)) where
  ruleset rules = (basic_rules, transaction_rules, invariant_rules)

  credit_referral-Keeps : (id : ℕ) (r : Referral) → Keeps P (credit_referral meanwhile id r)
  unfolding credit_referral
  credit_referral-Keeps id r = search rules depth 40

  credit_if_eligible-Keeps : (u : ℕ) → Keeps P (credit_if_eligible meanwhile u)
  unfolding credit_if_eligible
  credit_if_eligible-Keeps u = search (rules, credit_referral-Keeps) depth 40

  finalize_escrow-Keeps : (id : ℕ) → Keeps P (finalize_escrow meanwhile id)
  unfolding finalize_escrow release_tx
  finalize_escrow-Keeps id = search (rules, credit_if_eligible-Keeps) depth 40

  force_release-Keeps : (id : ℕ) → Keeps P (force_release meanwhile id)
  unfolding force_release
  force_release-Keeps id = search (rules, finalize_escrow-Keeps) depth 40

  force_hold_tx-Keeps : Reholds P → (id : ℕ) (o : Order) → Keeps P (force_hold_tx id o)
  unfolding force_hold_tx
  force_hold_tx-Keeps moves id o = search (rules, moves) depth 40

  force_hold-Keeps : Reholds P → (b : Bool) (id : ℕ) → Keeps P (force_hold meanwhile b id)
  unfolding force_hold
  force_hold-Keeps moves b id = search (rules, force_hold_tx-Keeps moves) depth 40

  enter_hold-Keeps : (c : Option ℕ) (id : ℕ) → Keeps P (enter_hold meanwhile c id)
  unfolding enter_hold
  enter_hold-Keeps c id = search (rules, finalize_escrow-Keeps) depth 40

  confirm_receipt-Keeps : (c : Option ℕ) (id u : ℕ) → Keeps P (confirm_receipt meanwhile c id u)
  unfolding confirm_receipt
  confirm_receipt-Keeps c id u = search (rules, enter_hold-Keeps) depth 40

  cancel_by_buyer-Keeps : (id u : ℕ) → Keeps P (cancel_by_buyer meanwhile id u)
  unfolding cancel_by_buyer
  cancel_by_buyer-Keeps id u = search rules depth 40

  mark_shipped-Keeps : (id u t c : ℕ) → Keeps P (mark_shipped meanwhile id u t c)
  unfolding mark_shipped
  mark_shipped-Keeps id u t c = search rules depth 40

  mark_delivered_internal-Keeps :
      (id : ℕ) (u : Option ℕ) → Keeps P (mark_delivered_internal meanwhile id u)
  unfolding mark_delivered_internal
  mark_delivered_internal-Keeps id u = search rules depth 40

  confirm_one-Keeps : (c : Option ℕ) (p : ℕ × Order) → Keeps P (confirm_one meanwhile c p)
  unfolding confirm_one
  confirm_one-Keeps c p = search (rules, enter_hold-Keeps) depth 40

  auto_confirm_orders-Keeps : (c : Option ℕ) → Keeps P (auto_confirm_orders meanwhile c)
  unfolding auto_confirm_orders
  auto_confirm_orders-Keeps c = search (rules, confirm_one-Keeps) depth 40

  release_one-Keeps : (p : ℕ × Order) → Keeps P (release_one meanwhile p)
  unfolding release_one
  release_one-Keeps p = search (rules, finalize_escrow-Keeps) depth 40

  release_held_escrow-Keeps : Keeps P (release_held_escrow meanwhile)
  unfolding release_held_escrow
  release_held_escrow-Keeps = search (rules, release_one-Keeps) depth 40

  cancel_unshipped-Keeps :
      (mp : Provider) (p : ℕ × Order) → Keeps P (cancel_unshipped meanwhile mp p)
  unfolding cancel_unshipped
  cancel_unshipped-Keeps mp p = search rules depth 40

  auto_cancel_unshipped_orders-Keeps :
      (mp : Provider) → Keeps P (auto_cancel_unshipped_orders meanwhile mp)
  unfolding auto_cancel_unshipped_orders
  auto_cancel_unshipped_orders-Keeps mp = search (rules, cancel_unshipped-Keeps) depth 40

  cancel_stale_pending-Keeps : (p : ℕ × Order) → Keeps P (cancel_stale_pending meanwhile p)
  unfolding cancel_stale_pending
  cancel_stale_pending-Keeps p = search rules depth 40

  cancel_stale_pending_orders-Keeps : Keeps P (cancel_stale_pending_orders meanwhile)
  unfolding cancel_stale_pending_orders
  cancel_stale_pending_orders-Keeps = search (rules, cancel_stale_pending-Keeps) depth 40

  escalate_stale-Keeps : (p : ℕ × OrderReturn) → Keeps P (escalate_stale meanwhile p)
  unfolding escalate_stale
  escalate_stale-Keeps p = search rules depth 40

  escalate_stale_returns-Keeps : Keeps P (escalate_stale_returns meanwhile)
  unfolding escalate_stale_returns
  escalate_stale_returns-Keeps = search (rules, escalate_stale-Keeps) depth 40

  escalate_shipment-Keeps : (p : ℕ × Order) → Keeps P (escalate_shipment meanwhile p)
  unfolding escalate_shipment
  escalate_shipment-Keeps p = search rules depth 40

  escalate_stuck_shipments-Keeps : (n : ℕ) → Keeps P (escalate_stuck_shipments meanwhile n)
  unfolding escalate_stuck_shipments
  escalate_stuck_shipments-Keeps n = search (rules, escalate_shipment-Keeps) depth 40

  create_dispute-Keeps : (u id r : ℕ) → Keeps P (create_dispute meanwhile u id r)
  unfolding create_dispute
  create_dispute-Keeps u id r = search rules depth 40

  refund_buyer-Keeps :
      (mp : Provider) (id : ℕ) (o : Order) → Keeps P (refund_buyer meanwhile mp id o)
  unfolding refund_buyer
  refund_buyer-Keeps mp id o = search rules depth 40

  resolve-Keeps : (mp : Provider) (id t : ℕ) (b : Bool) → Keeps P (resolve meanwhile mp id t b)
  unfolding resolve
  resolve-Keeps mp id t b = search (rules, refund_buyer-Keeps) depth 40

  create_return-Keeps : (c : Option ℕ) (u id r : ℕ) → Keeps P (create_return meanwhile c u id r)
  unfolding create_return
  create_return-Keeps c u id r = search rules depth 40

  approve_return-Keeps :
      (c : ℕ) (l : Option ℕ) (id u : ℕ) → Keeps P (approve_return meanwhile c l id u)
  unfolding approve_return
  approve_return-Keeps c l id u = search rules depth 40

  reject_return-Keeps : (id u r : ℕ) → Keeps P (reject_return meanwhile id u r)
  unfolding reject_return
  reject_return-Keeps id u r = search rules depth 40

  mark_return_shipped-Keeps : (id u : ℕ) → Keeps P (mark_return_shipped meanwhile id u)
  unfolding mark_return_shipped
  mark_return_shipped-Keeps id u = search rules depth 40

  mark_received_by_tracking-Keeps : (id : ℕ) → Keeps P (mark_received_by_tracking meanwhile id)
  unfolding mark_received_by_tracking
  mark_received_by_tracking-Keeps id = search rules depth 40

  inspect_approve-Keeps : (mp : Provider) (id u : ℕ) → Keeps P (inspect_approve meanwhile mp id u)
  unfolding inspect_approve
  inspect_approve-Keeps mp id u = search rules depth 40

  inspect_reject-Keeps : (id u r : ℕ) → Keeps P (inspect_reject meanwhile id u r)
  unfolding inspect_reject
  inspect_reject-Keeps id u r = search rules depth 40

  send_payout-Keeps : (id u n : ℕ) (a : PayoutAnswer) → Keeps P (send_payout meanwhile id u n a)
  unfolding send_payout
  send_payout-Keeps id u n (PayoutAnswer.unavailable) = search rules
  send_payout-Keeps id u n (PayoutAnswer.failure) = search rules depth 20
  send_payout-Keeps id u n (PayoutAnswer.processing e) = search rules depth 20
  send_payout-Keeps id u n (PayoutAnswer.completed e) = search rules depth 20

  request_payout-Keeps : (mp : Provider) (u n m : ℕ) → Keeps P (request_payout meanwhile mp u n m)
  unfolding request_payout
  request_payout-Keeps mp u n m = search (rules, send_payout-Keeps) depth 40

  mark_failed-Keeps : (id : ℕ) → Keeps P (mark_failed meanwhile id)
  unfolding mark_failed
  mark_failed-Keeps id = search rules depth 40

  mark_completed-Keeps : (id : ℕ) → Keeps P (mark_completed meanwhile id)
  unfolding mark_completed
  mark_completed-Keeps id = search rules depth 40

  place_order-Keeps : (f : ℕ → ℕ) (u : ℕ) (r : OrderRequest) → Keeps P (place_order meanwhile f u r)
  unfolding place_order
  place_order-Keeps f u r = search rules depth 40

  create_order-Keeps :
      (f : ℕ → ℕ) (u : ℕ) (r : OrderRequest) → Keeps P (create_order meanwhile f u r)
  unfolding create_order
  create_order-Keeps f u r = search (rules, place_order-Keeps) depth 40

  ruleset handlers = (
    rules, create_order-Keeps, minting_rules, bargain_rules, sale_rules, access_rules,
    cancel_by_buyer-Keeps, mark_shipped-Keeps, mark_delivered_internal-Keeps, confirm_receipt-Keeps,
    force_release-Keeps, create_dispute-Keeps, resolve-Keeps, create_return-Keeps,
    approve_return-Keeps, reject_return-Keeps, mark_return_shipped-Keeps,
    mark_received_by_tracking-Keeps, inspect_approve-Keeps, inspect_reject-Keeps,
    request_payout-Keeps, mark_failed-Keeps, mark_completed-Keeps, credit_if_eligible-Keeps,
    auto_confirm_orders-Keeps, release_held_escrow-Keeps, auto_cancel_unshipped_orders-Keeps,
    cancel_stale_pending_orders-Keeps, escalate_stale_returns-Keeps, escalate_stuck_shipments-Keeps,
  )

  -- Whether it answers or throws; a force-hold needs that what it moves keeps `P`.
  pub perform-Keeps :
      (env : Env) (r : Request)
      → (is_force_hold r ≡ true → Reholds P)
      → Keeps P (perform env meanwhile r)
  unfolding perform reply
  perform-Keeps env (Request.place u r) moves = search handlers
  perform-Keeps env (Request.hold_again id b) moves =
      search (handlers, force_hold-Keeps (moves refl))
  perform-Keeps env _ moves = search handlers

-- Schedules of requests; `moves` is of use where one of them is a force-hold.
pub run-Keeps_if :
    {P : World → Type 0} (inv : Invariant P) (env : Env) (s : Schedule)
    → (has_force_hold s ≡ true → Reholds P)
    → (w : World) → P w
    → P (run env s w)
unfolding run
run-Keeps_if inv env Schedule.done moves w h = h
run-Keeps_if inv env (Schedule.elapse ms rest) moves w h =
    run-Keeps_if inv env rest moves _ (inv.base.ticks (w.now + ms) w h)
run-Keeps_if inv env (Schedule.serve r inner rest) moves w h =
    run-Keeps_if inv env rest (λ e. moves (ground (arith, e))) _
      ((perform-Keeps inv (run env inner)
          (run-Keeps_if inv env inner (λ e. moves (ground (arith, e)))) env r
          (λ e. moves (ground (arith, e)))).at
        w h)

-- Any schedule of requests.
pub run-Keeps :
    {P : World → Type 0} (inv : Invariant P) (env : Env) (s : Schedule)
    → Reholds P
    → (w : World) → P w
    → P (run env s w)
run-Keeps inv env s moves w h = run-Keeps_if inv env s (λ e. moves) w h
