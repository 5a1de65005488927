-- ===== src/Payments/Reconcile.antt =====
-- What the payment provider holds for an order: `reconcileOrder` of
-- apps/api/src/payments/payments.service.ts.
use vintage.Prelude.{ℕ, Bool, true, false, Option, none, some, List, [], ◌∷◌, ◌&&◌, ◌||◌}
use vintage.Provider.{Provider, ProviderStatus, DetailAnswer}

-- MP_LIVE, MP_SUCCESS_TERMINAL and MP_FAILURE_TERMINAL.
abbrev pub is_live : ProviderStatus → Bool
is_live ProviderStatus.pending = true
is_live ProviderStatus.in_process = true
is_live ProviderStatus.authorized = true
is_live ProviderStatus.in_mediation = true
is_live _ = false

abbrev pub is_success : ProviderStatus → Bool
is_success ProviderStatus.approved = true
is_success _ = false

abbrev pub is_failure : ProviderStatus → Bool
is_failure ProviderStatus.rejected = true
is_failure ProviderStatus.cancelled = true
is_failure ProviderStatus.refunded = true
is_failure ProviderStatus.charged_back = true
is_failure _ = false

-- `ReconcileOutcome`.
pub data ReconcileOutcome : Type 0 where
  adopt : ℕ → ReconcileOutcome
  mint hold : ReconcileOutcome

-- The verdict after the loop: `allFailureTerminal`.
abbrev verdict : Bool → ReconcileOutcome
verdict true = ReconcileOutcome.mint
verdict false = ReconcileOutcome.hold

-- The loop over the candidates, each confirmed by its detail.
abbrev pub confirm_candidates : (ℕ → DetailAnswer) → Bool → List ℕ → ReconcileOutcome
confirm_candidates ask all_failure_terminal [] = verdict all_failure_terminal
confirm_candidates ask all_failure_terminal (c ∷ cs) = elim (ask c) [
  | DetailAnswer.unreadable ↦ ReconcileOutcome.hold
  | DetailAnswer.missing ↦ ReconcileOutcome.hold
  | DetailAnswer.detail s amount ↦ elim (is_live s || is_success s) [
    | true ↦ ReconcileOutcome.adopt c
    | false ↦ confirm_candidates ask (all_failure_terminal && is_failure s) cs
  ]
]

abbrev pub found_candidates : (ℕ → DetailAnswer) → Option (List ℕ) → ReconcileOutcome
found_candidates ask none = ReconcileOutcome.hold
found_candidates ask (some []) = ReconcileOutcome.hold
found_candidates ask (some (c ∷ cs)) = confirm_candidates ask true (c ∷ cs)

unfoldable pub reconcile_order : Provider → ℕ → ℕ → ReconcileOutcome
reconcile_order mp now order =
    found_candidates (mp.payment_detail now) (mp.search_payments now order)
