-- ===== src/World/State.antt =====
-- The records of the tables, and the state that the services share.
use vintage.Prelude.{ℕ, Bool, Option, List}
use vintage.Prelude.Int.{ℤ}
use vintage.Prelude.Dict.{Dict}
use vintage.Validation.{Text}
use vintage.Validation.Pix.{PixKeyType}
use vintage.World.Rows.{
  ListingStatus, OrderStatus, ReturnStatus, DisputeStatus, PayoutStatus, PaymentMethod,
  PaymentStatus, RefundMethod, EntryType, OfferStatus, PromotionType, BundleStatus,
}

pub record User : Type 0 where
  pub created_at : ℕ
  pub cpf_encrypted : Option ℕ
  pub cpf_identity_verified : Bool
  pub is_banned : Bool
  pub is_deleted : Bool
  pub token_version : ℕ
  pub password_hash : ℕ
  pub vacation_mode : Bool
  pub cpf_checksum_valid : Bool
  -- `ratingAvg` is the sum of the stars over their number, and 0 where there is none.
  pub rating_sum : ℕ
  pub rating_count : ℕ

pub record Listing : Type 0 where
  pub seller : ℕ
  pub status : ListingStatus
  pub price : ℕ
  pub shipping_weight_g : ℕ
  pub created_at : ℕ
  pub promoted_until : Option ℕ

pub record Address : Type 0 where
  pub user : ℕ

pub record Coupon : Type 0 where
  pub code : ℕ
  pub discount_pct : ℕ
  pub max_uses : Option ℕ
  pub used_count : ℕ
  pub expires_at : Option ℕ
  pub is_active : Bool

pub record Order : Type 0 where
  pub buyer : ℕ
  pub seller : ℕ
  pub listing : ℕ
  pub status : OrderStatus
  pub total : ℕ
  pub item_price : ℕ
  pub shipping_cost : ℕ
  pub protection_fee : ℕ
  pub discount : Option ℕ
  pub coupon : Option ℕ
  pub shipping_address : Option ℕ
  pub payment_method : PaymentMethod
  pub installments : ℕ
  pub idempotency_key : Option ℕ
  pub payment_id : Option ℕ
  pub refund_method : Option RefundMethod
  pub tracking_code : Option ℕ
  pub carrier : Option ℕ
  pub created_at : ℕ
  pub shipped_at : Option ℕ
  pub delivered_at : Option ℕ
  pub confirmed_at : Option ℕ
  pub dispute_deadline : Option ℕ
  pub escrow_releases_at : Option ℕ

pub record Dispute : Type 0 where
  pub order : ℕ
  pub opened_by : ℕ
  pub reason : ℕ
  pub status : DisputeStatus
  pub resolution : Option ℕ

pub record OrderReturn : Type 0 where
  pub order : ℕ
  pub requested_by : ℕ
  pub status : ReturnStatus
  pub reason : ℕ
  pub carrier : Option ℕ
  pub tracking_code : Option ℕ
  pub rejection_reason : Option ℕ
  pub shipped_at : Option ℕ
  pub received_at : Option ℕ
  pub inspected_at : Option ℕ

-- A wallet is unique for its user, so its key stands for `id` and `userId` alike.
pub record Wallet : Type 0 where
  pub balance : ℤ
  pub pending : ℤ

-- `WalletTransaction`.
pub record Entry : Type 0 where
  pub wallet : ℕ
  pub type : EntryType
  pub amount : ℤ
  pub reference : Option ℕ

pub record PayoutMethod : Type 0 where
  pub user : ℕ
  pub type : PixKeyType
  pub pix_key : Text
  pub is_default : Bool
  pub created_at : ℕ

pub record PayoutRequest : Type 0 where
  pub user : ℕ
  pub method : ℕ
  pub amount : ℕ
  pub status : PayoutStatus
  pub external_id : Option ℕ
  pub completed_at : Option ℕ

pub record Payment : Type 0 where
  pub order : ℕ
  pub attempt_number : ℕ
  pub method : PaymentMethod
  pub amount : ℕ
  pub provider_payment_id : Option ℕ
  pub status : PaymentStatus
  pub created_at : ℕ

pub record Referral : Type 0 where
  pub referrer : ℕ
  pub referee : ℕ
  pub reward_credited_at : Option ℕ
  pub reward_amount : Option ℕ

pub record FraudRule : Type 0 where
  pub code : ℕ
  pub enabled : Bool
  pub window_minutes : ℕ
  pub threshold : ℕ
  pub is_block : Bool

pub record FraudFlag : Type 0 where
  pub user : ℕ
  pub rule : ℕ
  pub is_pending : Bool
  pub created_at : ℕ

-- `parent` is `parentOfferId`, and `countered_by` the user who made this offer.
pub record Offer : Type 0 where
  pub listing : ℕ
  pub buyer : ℕ
  pub amount : ℕ
  pub status : OfferStatus
  pub expires_at : ℕ
  pub parent : Option ℕ
  pub counter_count : ℕ
  pub countered_by : Option ℕ
  pub created_at : ℕ

pub record Promotion : Type 0 where
  pub listing : Option ℕ
  pub user : ℕ
  pub type : PromotionType
  pub ends_at : ℕ
  pub price_paid : ℕ
  pub requires_discount : Bool

-- A bundle with the listings of its items.
pub record Bundle : Type 0 where
  pub buyer : ℕ
  pub seller : ℕ
  pub status : BundleStatus
  pub items : List ℕ

-- `hash` is `tokenHash`; the raw token is never stored.
pub record RefreshToken : Type 0 where
  pub user : ℕ
  pub hash : ℕ
  pub expires_at : ℕ
  pub used_at : Option ℕ
  pub revoked_at : Option ℕ
  pub replaced_by : Option ℕ

pub record ResetToken : Type 0 where
  pub user : ℕ
  pub hash : ℕ
  pub expires_at : ℕ
  pub used_at : Option ℕ

-- `position` of an image is its place in the list.
pub record Review : Type 0 where
  pub order : ℕ
  pub reviewer : ℕ
  pub reviewed : ℕ
  pub rating : ℕ
  pub comment : Option Text
  pub images : List Text
  pub seller_reply : Option Text
  pub seller_reply_at : Option ℕ

-- What leaves the process: notifications, search updates, analytics, audit rows, refunds at the
-- payment provider, payouts, and requests for a payment instrument by the id of the attempt.
pub data Effect : Type 0 where
  notify : ℕ → ℕ → Effect
  shipping_alert : ℕ → ℕ → Effect
  sync_search : ℕ → Effect
  capture : ℕ → ℕ → Effect
  audit : ℕ → Effect
  provider_refund : ℕ → ℕ → Effect
  pix_payout : ℕ → ℕ → Effect
  mint : ℕ → PaymentMethod → Effect

pub record World : Type 0 where
  pub now : ℕ
  pub next_id : ℕ
  pub users : Dict User
  pub listings : Dict Listing
  pub categories : List ℕ
  pub brands : List ℕ
  pub addresses : Dict Address
  pub coupons : Dict Coupon
  pub orders : Dict Order
  pub snapshots : List ℕ
  pub disputes : Dict Dispute
  pub returns : Dict OrderReturn
  pub wallets : Dict Wallet
  pub ledger : List Entry
  pub methods : Dict PayoutMethod
  pub payouts : Dict PayoutRequest
  pub payments : Dict Payment
  pub payment_flags : List ℕ
  pub webhooks : List ℕ
  pub referrals : Dict Referral
  pub offers : Dict Offer
  pub promotions : Dict Promotion
  pub bundles : Dict Bundle
  pub tokens : Dict RefreshToken
  pub resets : Dict ResetToken
  pub reviews : Dict Review
  pub blocks : List (ℕ × ℕ)
  pub locks : Dict ℕ
  pub fraud_rules : List FraudRule
  pub fraud_flags : List FraudFlag
  pub outbox : List Effect
