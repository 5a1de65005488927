-- ===== src/Payments/Verdict.antt =====
-- What the verdict of `reconcileOrder` of apps/api/src/payments/payments.service.ts stands on.
use vintage.Prelude.{
  ℕ, ◌≡◌, refl, Option, none, length, ltb, ◌↔◌, Bool, true, false, some, List, [], ◌∷◌, all, ◌&&◌,
  ◌||◌, arith, ◌==◌, any,
}
use vintage.Provider.{Provider, ProviderStatus, DetailAnswer}
use vintage.Payments.Reconcile.{
  is_live, is_success, is_failure, ReconcileOutcome, confirm_candidates, found_candidates,
  reconcile_order,
}

-- The provider says of the instrument that it has failed for good.
abbrev pub has_failed : DetailAnswer → Bool
has_failed (DetailAnswer.detail s a) = is_failure s
has_failed _ = false

-- The provider says of the instrument that it can be paid, or is.
abbrev pub is_payable : DetailAnswer → Bool
is_payable (DetailAnswer.detail s a) = is_live s || is_success s
is_payable _ = false

failure_lem : (s : ProviderStatus) → is_failure s ≡ true → (is_live s || is_success s) ≡ false
failure_lem s h = ground arith

confirm_lem :
    (ask : ℕ → DetailAnswer) (cs : List ℕ)
    → all (λ c. has_failed (ask c)) cs ≡ true
    → confirm_candidates ask true cs ≡ ReconcileOutcome.mint
confirm_lem ask [] e = refl
confirm_lem ask (c ∷ cs) e =
    ground (arith, λ (h : all (λ k. has_failed (ask k)) cs ≡ true). confirm_lem ask cs h)

mint_lem :
    (ask : ℕ → DetailAnswer) (b : Bool) (cs : List ℕ)
    → confirm_candidates ask b cs ≡ ReconcileOutcome.mint
    → (b && all (λ c. has_failed (ask c)) cs) ≡ true
mint_lem ask b [] e = ground arith
mint_lem ask b (c ∷ cs) e = ground (
  arith,
  λ (h : confirm_candidates ask (b && has_failed (ask c)) cs ≡ ReconcileOutcome.mint).
      mint_lem ask (b && has_failed (ask c)) cs h,
)

adopt_lem :
    (ask : ℕ → DetailAnswer) (b : Bool) (cs : List ℕ) (p : ℕ)
    → confirm_candidates ask b cs ≡ ReconcileOutcome.adopt p
    → any (λ c. c == p && is_payable (ask c)) cs ≡ true
adopt_lem ask b [] p e = ground arith
adopt_lem ask b (c ∷ cs) p e = ground (
  arith,
  λ (h : confirm_candidates ask (b && has_failed (ask c)) cs ≡ ReconcileOutcome.adopt p).
      adopt_lem ask (b && has_failed (ask c)) cs p h,
)

-- There is an instrument, and every one has failed for good.
abbrev pub AllFailed : (ℕ → DetailAnswer) → Option (List ℕ) → Type 0
AllFailed ask o =
    (cs : List ℕ) × ((o ≡ some cs)
      × (ltb 0 (length cs) ≡ true)
      × (all (λ c. has_failed (ask c)) cs ≡ true))

found_mint :
    (ask : ℕ → DetailAnswer) (o : Option (List ℕ))
    → found_candidates ask o ≡ ReconcileOutcome.mint
    → AllFailed ask o
found_mint ask none e = cc e
found_mint ask (some []) e = cc e
found_mint ask (some (c ∷ cs)) e = (c ∷ cs, (refl, ground arith, mint_lem ask true (c ∷ cs) e))

failed_mint :
    (ask : ℕ → DetailAnswer) (o : Option (List ℕ))
    → AllFailed ask o
    → found_candidates ask o ≡ ReconcileOutcome.mint
failed_mint ask o ([], (e, n, h)) = cc n
failed_mint ask o (c ∷ cs, (e, n, h)) = rw e (confirm_lem ask (c ∷ cs) h)

found_adopt :
    (ask : ℕ → DetailAnswer) (o : Option (List ℕ)) (p : ℕ)
    → found_candidates ask o ≡ ReconcileOutcome.adopt p
    → (cs : List ℕ) × ((o ≡ some cs) × (any (λ c. c == p && is_payable (ask c)) cs ≡ true))
found_adopt ask none p e = cc e
found_adopt ask (some []) p e = cc e
found_adopt ask (some (c ∷ cs)) p e = (c ∷ cs, (refl, adopt_lem ask true (c ∷ cs) p e))

-- `reconcileOrder` says that a new instrument may be minted exactly where the search of the
-- provider gives at least one instrument of the order and the detail of every one of them says
-- that it has failed for good.
pub reconcile_order-mint :
    (mp : Provider) (now order : ℕ)
    → (reconcile_order mp now order ≡ ReconcileOutcome.mint)
      ↔ AllFailed (mp.payment_detail now) (mp.search_payments now order)
unfolding reconcile_order
reconcile_order-mint mp now order = (
  found_mint (mp.payment_detail now) (mp.search_payments now order),
  failed_mint (mp.payment_detail now) (mp.search_payments now order),
)

-- Where `reconcileOrder` adopts an instrument, the search of the provider gives it, and its
-- detail says that it can be paid or is approved.
reconcile_order-adopt :
    (mp : Provider) (now order p : ℕ)
    → reconcile_order mp now order ≡ ReconcileOutcome.adopt p
    → (cs : List ℕ) × ((mp.search_payments now order ≡ some cs)
        × (any (λ c. c == p && is_payable (mp.payment_detail now c)) cs ≡ true))
unfolding reconcile_order
reconcile_order-adopt mp now order p e =
    found_adopt (mp.payment_detail now) (mp.search_payments now order) p e
