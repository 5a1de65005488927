-- ===== src/Lib.antt =====
-- The API of the Vintage.br marketplace: its money and order flows, offers, listings, promotions,
-- bundles, sessions, and documents.
--
-- Buyers place orders on listings and pay through a provider; the price of the item waits in the
-- escrow of the seller (`Wallet.pendingBrl`) until the order is confirmed and a hold is over, and is
-- then the seller's to withdraw (`Wallet.balanceBrl`). Cancellations, disputes and returns take it
-- back and refund the buyer. The services write an entry in a ledger (`WalletTransaction`) with every
-- change of a wallet; an administrator's force-hold, which moves the price of a completed order from
-- the balance of its seller back into escrow, writes none and does not test the balance. All state
-- that is modelled is in the database, and several instances serve requests at the same time.
--
-- The files, and the code that they model (paths under apps/api/src unless they say otherwise):
--   Prelude        tests, lists, integers and tables that every module shares
--   World          the rows of apps/api/prisma/schema.prisma, the state, requests as actions on it,
--                  the calls of the database client, and rules for invariants of actions
--   Wallet         the writes on a wallet and on the ledger (upsert, increments, entries);
--                  Wallet/Posting, Wallet/Reconciliation, Wallet/Together and Wallet/Solvency hold
--                  what they do
--   CronLock       common/services/cron-lock.service.ts
--   Provider       the calls and answers of payments/mercadopago.client.ts
--   Referrals      referrals/referrals.service.ts, `creditIfEligible`
--   Fraud          fraud/fraud.service.ts, `evaluatePurchase`, `evaluatePayout`,
--                  `evaluatePaymentAttempt` and `evaluateListingCreation`
--   Orders         orders/orders.service.ts: Lifecycle (cancel, ship, deliver), Escrow (confirm,
--                  hold, release); Orders/Release and Orders/Confirm on what they do; Overrides models
--                  admin-analytics/admin-orders.controller.ts, `forceRelease` and `forceHold`
--   OrdersCron     orders/orders-cron.service.ts: Confirm, Cancel, Escalate; OrdersCron/Routes on
--                  the refund of an order that is not shipped, OrdersCron/Released on the release
--   Disputes       disputes/disputes.service.ts; Disputes/Fallback on the refund to the wallet
--   Returns        returns/returns.service.ts: Request, Inspect; Returns/Refund on the refund,
--                  Returns/Exclusive on returns and disputes of one order
--   Payments       payments/payments.service.ts: the settlement of an approved payment, Reconcile
--                  (the provider's verdict), Attempts (reserve, bind, abandon, adopt), Mint (PIX,
--                  card, boleto, regenerate, retry), Webhook (with
--                  payments/payments-reconciliation.cron.ts); Payments/Once, Payments/Verdict and
--                  Payments/Reserve on what they do
--   Offers         offers/offers.service.ts: create, accept, counter, reject, and Thread;
--                  Offers/Deals on accepted and countered offers, Offers/Chain on the chain
--   Validation     packages/shared/src/validation.ts: CPF, CNPJ, CEP, and PIX keys (Pix);
--                  Validation/CheckDigits, Validation/Format and Validation/Canonical on them
--   Payouts        wallet/payouts.service.ts; Payouts/Debit and Payouts/Once on its transactions;
--                  Methods models wallet/payout-methods.service.ts, with Payouts/Stored and
--                  Payouts/Defaults; its requests are not in the schedules of System
--   Checkout       orders/orders.service.ts, `create` (Checkout/Place), with
--                  coupons/coupons.service.ts `validate` and, in Checkout/Coupons, `create`,
--                  which no schedule of System serves; Checkout/Totals, Checkout/Cap and
--                  Checkout/Retry on the totals, the coupon and the idempotency key
--   Listings       listings/listings.service.ts, `create`, `update` and `remove`, with
--                  `suspendListing` and `unsuspendListing` of moderation/moderation.service.ts;
--                  Listings/Suspended on what ends a suspension
--   Promotions     promotions/promotions.service.ts, with the tiers and prices of
--                  packages/shared/src/constants.ts; Promotions/Charges on what a bump costs
--   Bundles        bundles/bundles.service.ts; Bundles/Exclusive on listings in several bundles,
--                  Bundles/Shares on the orders of a bundle and their amounts
--   Sessions       auth/auth.service.ts: rotation, reuse and revocation of refresh tokens;
--                  auth/jwt.strategy.ts; moderation/moderation.service.ts: forced logout and bans;
--                  Password models changePassword and resetPassword; Sessions/Held and
--                  Sessions/Replay on the rows of tokens, Sessions/Reset on a reset
--   Reviews        reviews/reviews.service.ts: create and replyToReview; Reviews/Ratings on the rating
--                  that a user shows; its requests are not in the schedules of System
--   Users          users/users.service.ts: `toggleVacationMode` and `deleteAccount`
--   System         the requests together, and schedules of interleaved requests; System/Invariant
--                  lists the writes that they are made of; System/Accounts, System/Single,
--                  System/Capped, System/Decided, System/Spent and System/Redeemed on wallets,
--                  payment attempts, coupons, offers and refresh tokens under any schedule
--   Tests          uses of the theorems on a small marketplace
--
-- How the code is read. A handler is an action: a function from the state to a result, a value or an
-- exception, and a new state. What an action wrote before it throws stays written, but `transaction`
-- takes it back. Handlers are named after the source in snake case, and each is written in the order
-- of its statements, with every guard. `updateMany` on one row under a condition is `claim`. Where a
-- handler waits between its first reads and the write that claims a row, it takes a function
-- `meanwhile`, what other requests commit in that time; a transaction is one step, as the database
-- serialises transactions that touch the same rows. `System.run` serves a schedule: a tree of
-- requests, where those that a request's subtree holds are served while it waits.
--
-- Amounts are in centavos, signed on wallets and in the ledger; instants are in milliseconds; ids
-- are numbers that the database gives out; a wallet is keyed by its user. Checkout reckons in
-- millionths of a real, in which every float of the source is whole, and `toFixed(2)` is a
-- parameter, of a fraction of millionths where a bundle divides its shipping; the theorems that need
-- it assume that it rounds to a nearest centavo. The answers of the payment provider, which may
-- depend on the time of the question, the label of the carrier, the verdicts of the checks of
-- content and of image URLs, `toLowerCase`, the hash functions and fresh random tokens are
-- parameters. Configured numbers are taken as read. The one unbounded loop, up a chain of offers in
-- `findThread`, runs on fuel, with one step for each counteroffer that the code allows in a chain.
--
-- Not modelled: failures of the database other than a missing row, and the branches that only they
-- reach; texts of messages, and descriptions, images and titles of listings; the contents of a listing
-- snapshot, of which the id of the order is kept. Notifications, search, analytics, audit rows and
-- provider calls are effects of an outbox. Form validation, the mask of an e-mail, login and
-- registration, favourites and searches, messaging, the queues of moderation, shipping adapters and
-- the clients under apps/web and apps/mobile are not modelled.
--
-- A schedule of System serves the requests that System lists, and "any schedule" below means these.
-- No schedule serves payout methods, reviews, referral codes and the creation of coupons, nor these
-- writers of modelled tables, which are not modelled: sign-up, identity checks, second factors and
-- support staff (users), the verification and the change of an e-mail, forgotten passwords and social
-- logins (users, tokens and reset links), the final sweep of deleted accounts (addresses and payout
-- methods), the jobs of
-- listings/listings-cron.service.ts and the rejection of a flagged image (the status and the promotion
-- of listings), authenticity checks, favourites, follows and uploads (other columns), and the purge of
-- old refresh tokens and listings by common/crons/retention-cron.service.ts. None of them writes a
-- wallet, the ledger, an order, a payment or an offer, and a coupon is only created.
pub mod Offers
pub mod Prelude
pub mod World
pub mod Validation
pub mod Wallet
pub mod CronLock
pub mod Provider
pub mod Referrals
pub mod Orders
pub mod OrdersCron
pub mod Disputes
pub mod Fraud
pub mod Returns
pub mod Payments
pub mod Payouts
pub mod Promotions
pub mod Bundles
pub mod Sessions
pub mod Listings
pub mod Reviews
pub mod Users
pub mod Checkout
pub mod System
pub mod Tests
