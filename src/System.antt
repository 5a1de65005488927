-- ===== src/System.antt =====
-- The requests that the API and its scheduled jobs serve on the shared state, one constructor for
-- each handler that a schedule can serve.

pub mod Invariant
mod Parts
mod Transactions
pub mod Whole
pub mod Rows
mod Minting
mod Bargains
mod Sales
mod Access
pub mod Keeps
pub mod Accounts
pub mod Single
pub mod Capped
pub mod Decided
pub mod Spent
pub mod Redeemed
use vintage.Prelude.{ℕ, ◌+◌, Bool, true, false, ◌||◌, Option, List, [], ◌∷◌}
use vintage.World.{World, PaymentMethod}
use vintage.World.Action.{Action, ◌>>=◌, ◌>>◌, pure, for_each}
use vintage.Provider.{Provider}
use vintage.Referrals.{credit_if_eligible}
use vintage.Orders.{
  cancel_by_buyer, mark_shipped, mark_delivered_internal, confirm_receipt, enter_hold,
  force_release, force_hold,
}
use vintage.OrdersCron.{
  auto_confirm_orders, release_held_escrow, auto_cancel_unshipped_orders,
  cancel_stale_pending_orders, escalate_stale_returns, escalate_stuck_shipments,
}
use vintage.Disputes.{create_dispute, resolve}
use vintage.Returns.{
  create_return, approve_return, reject_return, mark_return_shipped, mark_received_by_tracking,
  inspect_approve, inspect_reject,
}
use vintage.Payments.Mint.{
  create_pix_payment, create_card_payment, create_boleto_payment, regenerate_pix_payment,
  retry_payment,
}
use vintage.Payments.Webhook.{Delivery, handle_webhook, reconcile_pending_payments}
use vintage.Offers.{create_offer, accept_offer, reject_offer, counter_offer}
use vintage.Listings.{
  ListingInput, ListingUpdate, create_listing, update_listing, remove_listing, suspend_listing,
  unsuspend_listing,
}
use vintage.Promotions.{create_megafone, create_bump, create_spotlight}
use vintage.Bundles.{create_bundle, remove_item, checkout_bundle}
use vintage.Sessions.{
  Crypto, generate_tokens, refresh_token, revoke_refresh_token, force_logout, ban_user, unban_user,
}
use vintage.Sessions.Password.{change_password, reset_password}
use vintage.Users.{toggle_vacation_mode, delete_account}
use vintage.Validation.{Text}
use vintage.Payouts.{request_payout, mark_failed, mark_completed}
use vintage.Checkout.Place.{OrderRequest, create_order}

-- The settings of a process and the answers from outside.
pub record Env : Type 0 where
  pub provider : Provider
  pub to_fixed : ℕ → ℕ
  pub to_fixed_over : ℕ → ℕ → ℕ
  pub crypto : Crypto
  pub kyc_enforced : Bool
  pub escrow_hold_days : Option ℕ
  pub return_window_days : Option ℕ
  pub stuck_days : ℕ
  pub admins : List ℕ
  pub prohibited : ℕ → Bool

pub data Request : Type 0 where
  place : ℕ → OrderRequest → Request
  webhook : Delivery → Request
  pay_pix pay_card pay_boleto regenerate_pix : ℕ → ℕ → Request
  retry : ℕ → ℕ → PaymentMethod → Option ℕ → Request
  cancel : ℕ → ℕ → Request
  ship : ℕ → ℕ → ℕ → ℕ → Request
  deliver : ℕ → Option ℕ → Request
  confirm : ℕ → ℕ → Request
  release_now : ℕ → Request
  hold_again : ℕ → Bool → Request
  open_dispute : ℕ → ℕ → ℕ → Request
  resolve_dispute : ℕ → ℕ → Bool → Request
  open_return : ℕ → ℕ → ℕ → Request
  approve : ℕ → Option ℕ → ℕ → ℕ → Request
  reject : ℕ → ℕ → ℕ → Request
  return_shipped : ℕ → ℕ → Request
  return_received : ℕ → Request
  inspection_approve : ℕ → ℕ → Request
  inspection_reject : ℕ → ℕ → ℕ → Request
  payout : ℕ → ℕ → ℕ → Request
  payout_failed : ℕ → Request
  payout_completed : ℕ → Request
  referral : ℕ → Request
  propose counter : ℕ → ℕ → ℕ → Request
  accept decline : ℕ → ℕ → Request
  auto_confirm release_held cancel_unshipped cancel_stale escalate_stale escalate_stuck : Request
  reconcile_payments : Request
  megafone : ℕ → ℕ → Request
  bump : ℕ → ℕ → Option ℕ → Request
  spotlight : ℕ → Request
  bundle : ℕ → ℕ → List ℕ → Request
  remove : ℕ → ℕ → ℕ → Request
  checkout : ℕ → ℕ → ℕ → PaymentMethod → Request
  sign_in : ℕ → Text → Request
  refresh : Text → Text → Request
  sign_out : Text → Request
  new_password : ℕ → ℕ → ℕ → Request
  recover : Text → ℕ → Request
  kick ban unban suspend unsuspend : ℕ → Request
  vacation : ℕ → Bool → Request
  leave : ℕ → Option ℕ → Option Bool → Request
  publish : ℕ → ListingInput → Request
  edit : ℕ → ℕ → ListingUpdate → Request
  withdraw : ℕ → ℕ → Request

-- The result goes to the client.
unfoldable pub reply : {A : Type 0} → Action A → Action (Unit {0})
reply m = m >>= λ _. pure tt

unfoldable pub perform : Env → (World → World) → Request → Action (Unit {0})
perform env other (Request.place buyer r) = reply (create_order other env.to_fixed buyer r)
perform env other (Request.webhook d) = reply (handle_webhook other env.provider env.admins d)
perform env other (Request.pay_pix id user) = reply (create_pix_payment other env.provider id user)
perform env other (Request.pay_card id user) =
    reply (create_card_payment other env.provider id user)
perform env other (Request.pay_boleto id user) =
    reply (create_boleto_payment other env.provider id user)
perform env other (Request.regenerate_pix id user) =
    reply (regenerate_pix_payment other env.provider id user)
perform env other (Request.retry id user method installments) =
    reply (retry_payment other env.provider id user method installments)
perform env other Request.reconcile_payments =
    reconcile_pending_payments other env.provider env.admins
perform env other (Request.cancel id user) = reply (cancel_by_buyer other id user)
perform env other (Request.ship id user code carrier) =
    reply (mark_shipped other id user code carrier)
perform env other (Request.deliver id user) = reply (mark_delivered_internal other id user)
perform env other (Request.confirm id user) =
    reply (confirm_receipt other env.escrow_hold_days id user)
perform env other (Request.release_now id) = reply (force_release other id)
perform env other (Request.hold_again id reason) = reply (force_hold other reason id)
perform env other (Request.open_dispute user id reason) =
    reply (create_dispute other user id reason)
perform env other (Request.resolve_dispute id text refund) =
    reply (resolve other env.provider id text refund)
perform env other (Request.open_return user id reason) =
    reply (create_return other env.return_window_days user id reason)
perform env other (Request.approve carrier label id user) =
    reply (approve_return other carrier label id user)
perform env other (Request.reject id user reason) = reply (reject_return other id user reason)
perform env other (Request.return_shipped id user) = reply (mark_return_shipped other id user)
perform env other (Request.return_received id) = mark_received_by_tracking other id
perform env other (Request.inspection_approve id user) =
    reply (inspect_approve other env.provider id user)
perform env other (Request.inspection_reject id user reason) =
    reply (inspect_reject other id user reason)
perform env other (Request.payout user amount method) =
    reply (request_payout other env.provider user amount method)
perform env other (Request.payout_failed id) = reply (mark_failed other id)
perform env other (Request.payout_completed id) = reply (mark_completed other id)
perform env other (Request.referral user) = credit_if_eligible other user
perform env other (Request.propose buyer listing amount) =
    reply (create_offer other env.prohibited buyer listing amount)
perform env other (Request.counter id user amount) = reply (counter_offer other id user amount)
perform env other (Request.accept id user) = reply (accept_offer other env.prohibited id user)
perform env other (Request.decline id user) = reply (reject_offer other id user)
perform env other (Request.megafone listing user) = reply (create_megafone other listing user)
perform env other (Request.bump listing user days) = reply (create_bump other listing user days)
perform env other (Request.spotlight user) = reply (create_spotlight other user)
perform env other (Request.bundle buyer seller ids) = reply (create_bundle other buyer seller ids)
perform env other (Request.remove id listing user) = remove_item other id listing user
perform env other (Request.checkout id buyer address method) =
    reply (checkout_bundle other env.to_fixed_over id buyer address method)
perform env other (Request.sign_in user fresh) = reply (generate_tokens other env.crypto user fresh)
perform env other (Request.refresh raw fresh) = reply (refresh_token other env.crypto raw fresh)
perform env other (Request.sign_out raw) = revoke_refresh_token env.crypto raw
perform env other (Request.new_password user current new) =
    change_password other env.crypto user current new
perform env other (Request.recover raw new) = reset_password other env.crypto raw new
perform env other (Request.kick user) = force_logout other user
perform env other (Request.ban user) = ban_user other user
perform env other (Request.unban user) = unban_user other user
perform env other (Request.suspend id) = suspend_listing other id
perform env other (Request.unsuspend id) = unsuspend_listing other id
perform env other (Request.vacation user enabled) = toggle_vacation_mode other user enabled
perform env other (Request.leave user password code) =
    delete_account other env.crypto user password code
perform env other (Request.publish seller dto) =
    reply (create_listing other env.kyc_enforced seller dto)
perform env other (Request.edit id seller dto) = update_listing other id seller dto
perform env other (Request.withdraw id seller) = remove_listing other id seller
perform env other Request.auto_confirm = auto_confirm_orders other env.escrow_hold_days
perform env other Request.release_held = release_held_escrow other
perform env other Request.cancel_unshipped = auto_cancel_unshipped_orders other env.provider
perform env other Request.cancel_stale = cancel_stale_pending_orders other
perform env other Request.escalate_stale = escalate_stale_returns other
perform env other Request.escalate_stuck = escalate_stuck_shipments other env.stuck_days

-- Requests in the order in which they begin. While one waits between two calls of the database,
-- those of its first schedule are served. Time passes by `elapse`.
pub data Schedule : Type 0 where
  done : Schedule
  serve : Request → Schedule → Schedule → Schedule
  elapse : ℕ → Schedule → Schedule

abbrev pub is_force_hold : Request → Bool
is_force_hold (Request.hold_again id reason) = true
is_force_hold _ = false

-- Whether an administrator moves money back into escrow at some point of the schedule.
abbrev pub has_force_hold : Schedule → Bool
has_force_hold Schedule.done = false
has_force_hold (Schedule.elapse ms rest) = has_force_hold rest
has_force_hold (Schedule.serve r inner rest) =
    let a = has_force_hold inner in let b = has_force_hold rest in is_force_hold r || (a || b)

-- What a request throws goes to its client.
unfoldable pub run : Env → Schedule → World → World
run env Schedule.done w = w
run env (Schedule.elapse ms rest) w = run env rest (record w { now = w.now + ms })
run env (Schedule.serve r inner rest) w = run env rest (perform env (run env inner) r w).1
