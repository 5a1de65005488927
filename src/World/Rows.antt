-- ===== src/World/Rows.antt =====
-- The rows of the tables (apps/api/prisma/schema.prisma): the columns that the services read or
-- write. An id is a number, an amount is in centavos (`Decimal(10, 2)`), an instant is in
-- milliseconds. The constructors keep the names of the enums.
use vintage.Prelude.{ℕ, Bool, ◌==◌}

pub data ListingStatus : Type 0 where
  active paused sold deleted suspended : ListingStatus

pub data OrderStatus : Type 0 where
  pending paid shipped delivered held completed disputed refunded cancelled : OrderStatus

pub data ReturnStatus : Type 0 where
  requested approved rejected shipped received refunded disputed : ReturnStatus

pub data DisputeStatus : Type 0 where
  open_status resolved escalated : DisputeStatus

pub data PayoutStatus : Type 0 where
  pending processing completed failed : PayoutStatus

pub data PaymentMethod : Type 0 where
  pix credit_card boleto free : PaymentMethod

pub data PaymentStatus : Type 0 where
  pending succeeded failed cancelled : PaymentStatus

pub data RefundMethod : Type 0 where
  original_payment wallet_credit : RefundMethod

pub data EntryType : Type 0 where
  credit debit payout refund escrow_hold escrow_release : EntryType

-- Equality tests on the enums, by the position of a constructor in its declaration.
abbrev order_rank : OrderStatus → ℕ
order_rank OrderStatus.pending = 0
order_rank OrderStatus.paid = 1
order_rank OrderStatus.shipped = 2
order_rank OrderStatus.delivered = 3
order_rank OrderStatus.held = 4
order_rank OrderStatus.completed = 5
order_rank OrderStatus.disputed = 6
order_rank OrderStatus.refunded = 7
order_rank OrderStatus.cancelled = 8

abbrev return_rank : ReturnStatus → ℕ
return_rank ReturnStatus.requested = 0
return_rank ReturnStatus.approved = 1
return_rank ReturnStatus.rejected = 2
return_rank ReturnStatus.shipped = 3
return_rank ReturnStatus.received = 4
return_rank ReturnStatus.refunded = 5
return_rank ReturnStatus.disputed = 6

abbrev dispute_rank : DisputeStatus → ℕ
dispute_rank DisputeStatus.open_status = 0
dispute_rank DisputeStatus.resolved = 1
dispute_rank DisputeStatus.escalated = 2

abbrev payout_rank : PayoutStatus → ℕ
payout_rank PayoutStatus.pending = 0
payout_rank PayoutStatus.processing = 1
payout_rank PayoutStatus.completed = 2
payout_rank PayoutStatus.failed = 3

abbrev payment_rank : PaymentStatus → ℕ
payment_rank PaymentStatus.pending = 0
payment_rank PaymentStatus.succeeded = 1
payment_rank PaymentStatus.failed = 2
payment_rank PaymentStatus.cancelled = 3

abbrev entry_rank : EntryType → ℕ
entry_rank EntryType.credit = 0
entry_rank EntryType.debit = 1
entry_rank EntryType.payout = 2
entry_rank EntryType.refund = 3
entry_rank EntryType.escrow_hold = 4
entry_rank EntryType.escrow_release = 5

abbrev listing_rank : ListingStatus → ℕ
listing_rank ListingStatus.active = 0
listing_rank ListingStatus.paused = 1
listing_rank ListingStatus.sold = 2
listing_rank ListingStatus.deleted = 3
listing_rank ListingStatus.suspended = 4

abbrev pub order_is : OrderStatus → OrderStatus → Bool
order_is s t = order_rank s == order_rank t

abbrev pub return_is : ReturnStatus → ReturnStatus → Bool
return_is s t = return_rank s == return_rank t

abbrev pub dispute_is : DisputeStatus → DisputeStatus → Bool
dispute_is s t = dispute_rank s == dispute_rank t

abbrev pub payout_is : PayoutStatus → PayoutStatus → Bool
payout_is s t = payout_rank s == payout_rank t

abbrev pub entry_is : EntryType → EntryType → Bool
entry_is s t = entry_rank s == entry_rank t

abbrev pub listing_is : ListingStatus → ListingStatus → Bool
listing_is s t = listing_rank s == listing_rank t

abbrev pub payment_is : PaymentStatus → PaymentStatus → Bool
payment_is s t = payment_rank s == payment_rank t

pub data OfferStatus : Type 0 where
  pending accepted rejected countered expired : OfferStatus

abbrev offer_rank : OfferStatus → ℕ
offer_rank OfferStatus.pending = 0
offer_rank OfferStatus.accepted = 1
offer_rank OfferStatus.rejected = 2
offer_rank OfferStatus.countered = 3
offer_rank OfferStatus.expired = 4

abbrev pub offer_is : OfferStatus → OfferStatus → Bool
offer_is s t = offer_rank s == offer_rank t

pub data PromotionType : Type 0 where
  megafone bump spotlight : PromotionType

abbrev promotion_rank : PromotionType → ℕ
promotion_rank PromotionType.megafone = 0
promotion_rank PromotionType.bump = 1
promotion_rank PromotionType.spotlight = 2

abbrev pub promotion_is : PromotionType → PromotionType → Bool
promotion_is s t = promotion_rank s == promotion_rank t

pub data BundleStatus : Type 0 where
  open_status checked_out cancelled : BundleStatus

abbrev bundle_rank : BundleStatus → ℕ
bundle_rank BundleStatus.open_status = 0
bundle_rank BundleStatus.checked_out = 1
bundle_rank BundleStatus.cancelled = 2

abbrev pub bundle_is : BundleStatus → BundleStatus → Bool
bundle_is s t = bundle_rank s == bundle_rank t
