-- ===== src/System/Access.antt =====
-- Invariants of the handlers of sessions and of accounts.
use vintage.Prelude.{ℕ, Bool, Option, none, some}
use vintage.Validation.{Text}
use vintage.World.{World, User, RefreshToken}
use vintage.World.Keeps.{Keeps}
use vintage.System.Invariant.{Invariant, basic_rules, invariant_rules}
use vintage.System.Transactions.{transaction_rules}
use vintage.Sessions.{
  Crypto, TokenPair, handle_refresh_token_reuse, generate_tokens, refuse_reuse, rotate, redeem,
  refresh_token, revoke_refresh_token, force_logout, ban_tx, ban_user, unban_user,
}
use vintage.Users.{toggle_vacation_mode, confirm_deletion, delete_tx, delete_account}
use vintage.Sessions.Password.{use_resets, change_password, reset_tx, reset_password}

module _ {P : World → Type 0} (inv : Invariant P) where
  pub revoke_refresh_token-Keeps : (c : Crypto) (raw : Text) → Keeps P (revoke_refresh_token c raw)
  unfolding revoke_refresh_token
  revoke_refresh_token-Keeps c raw = search (basic_rules, invariant_rules) depth 20

module _ {P : World → Type 0} (inv : Invariant P) (meanwhile : World → World)
    (rely : (w : World) → P w → P (meanwhile w)) where
  ruleset rules = (basic_rules, transaction_rules, invariant_rules)

  reuse-Keeps : (u : ℕ) → Keeps P (handle_refresh_token_reuse u)
  unfolding handle_refresh_token_reuse
  reuse-Keeps u = search rules depth 20

  refuse_reuse-Keeps : (u : ℕ) → Keeps P (refuse_reuse {A = TokenPair} u)
  unfolding refuse_reuse
  refuse_reuse-Keeps u = search (rules, reuse-Keeps) depth 20

  pub generate_tokens-Keeps :
      (c : Crypto) (u : ℕ) (raw : Text) → Keeps P (generate_tokens meanwhile c u raw)
  unfolding generate_tokens
  generate_tokens-Keeps c u raw = search rules depth 20

  pub rotate-Keeps : (c : Crypto) (id u : ℕ) (raw : Text) → Keeps P (rotate meanwhile c id u raw)
  unfolding rotate
  rotate-Keeps c id u raw = search (rules, generate_tokens-Keeps) depth 20

  redeem-Keeps :
      (c : Crypto) (id : ℕ) (t : RefreshToken) (raw : Text) → Keeps P (redeem meanwhile c id t raw)
  unfolding redeem
  redeem-Keeps c id t raw = search (rules, rotate-Keeps, refuse_reuse-Keeps) depth 30

  pub refresh_token-Keeps :
      (c : Crypto) (raw fresh : Text) → Keeps P (refresh_token meanwhile c raw fresh)
  unfolding refresh_token
  refresh_token-Keeps c raw fresh = search (rules, redeem-Keeps, refuse_reuse-Keeps) depth 30

  use_resets-Keeps : (u n : ℕ) → Keeps P (use_resets u n)
  unfolding use_resets
  use_resets-Keeps u n = search rules

  pub change_password-Keeps : (c : Crypto) (u p q : ℕ) → Keeps P (change_password meanwhile c u p q)
  unfolding change_password
  change_password-Keeps c u p q = search (rules, use_resets-Keeps) depth 40

  reset_tx-Keeps : (id u h : ℕ) → Keeps P (reset_tx id u h)
  unfolding reset_tx
  reset_tx-Keeps id u h = search (rules, use_resets-Keeps) depth 30

  pub reset_password-Keeps :
      (c : Crypto) (raw : Text) (p : ℕ) → Keeps P (reset_password meanwhile c raw p)
  unfolding reset_password
  reset_password-Keeps c raw p = search (rules, reset_tx-Keeps) depth 40

  pub force_logout-Keeps : (u : ℕ) → Keeps P (force_logout meanwhile u)
  unfolding force_logout
  force_logout-Keeps u = search rules depth 20

  ban_tx-Keeps : (u : ℕ) → Keeps P (ban_tx u)
  unfolding ban_tx
  ban_tx-Keeps u = search rules depth 20

  pub ban_user-Keeps : (u : ℕ) → Keeps P (ban_user meanwhile u)
  unfolding ban_user
  ban_user-Keeps u = search (rules, ban_tx-Keeps) depth 30

  pub unban_user-Keeps : (u : ℕ) → Keeps P (unban_user meanwhile u)
  unfolding unban_user
  unban_user-Keeps u = search rules depth 20

  pub toggle_vacation_mode-Keeps : (u : ℕ) (b : Bool) → Keeps P (toggle_vacation_mode meanwhile u b)
  unfolding toggle_vacation_mode
  toggle_vacation_mode-Keeps u b = search rules depth 30

  confirm_deletion-Keeps :
      (c : Crypto) (p : Option ℕ) (b : Option Bool) (u : User) → Keeps P (confirm_deletion c p b u)
  unfolding confirm_deletion
  confirm_deletion-Keeps c (some p) b u = search rules
  confirm_deletion-Keeps c none (some b) u = search rules
  confirm_deletion-Keeps c none none u = search rules

  delete_tx-Keeps : (u : ℕ) → Keeps P (delete_tx u)
  unfolding delete_tx
  delete_tx-Keeps u = search rules depth 30

  pub delete_account-Keeps :
      (c : Crypto) (u : ℕ) (p : Option ℕ) (b : Option Bool)
      → Keeps P (delete_account meanwhile c u p b)
  unfolding delete_account
  delete_account-Keeps c u p b = search (rules, confirm_deletion-Keeps, delete_tx-Keeps) depth 40

pub ruleset access_rules = (
  generate_tokens-Keeps, refresh_token-Keeps, revoke_refresh_token-Keeps, change_password-Keeps,
  toggle_vacation_mode-Keeps, delete_account-Keeps, reset_password-Keeps, force_logout-Keeps,
  ban_user-Keeps, unban_user-Keeps,
)
