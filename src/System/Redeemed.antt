-- ===== src/System/Redeemed.antt =====
-- A refresh token is redeemed at most once (`refreshToken` of apps/api/src/auth/auth.service.ts),
-- whatever other requests do meanwhile and afterwards.
use vintage.Prelude.{
  ℕ, ◌<◌, ◌≡◌, refl, Bool, true, false, some, ap, subst, sym, Bool-cases, inl, inr, Option,
}
use vintage.Prelude.Dict.{lookup, find, find-insert_self, find-passes, lookup-insert_self}
use vintage.Validation.{Text}
use vintage.World.{World, RefreshToken}
use vintage.World.Action.{Action, ok, throw, branch, interleave}
use vintage.World.Keeps.{Keeps, Keeps-gets, Keeps-throw_if, Keeps-bind}
use vintage.World.Ensures.{
  Ensures, Ensures-bind, Ensures-after, Ensures-keep, Ensures-guarded, Ensures-finding,
  Ensures-reading, Ensures-returns,
}
use vintage.World.Tables.{claim, find_first}
use vintage.Sessions.{
  Crypto, TokenPair, has_hash, is_spent, refuse_reuse, refresh_token, redeem, use_token,
}
use vintage.Sessions.Held.{Held, is_spent-IsStable, any-IsStable}
use vintage.System.{Env, Schedule, run}
use vintage.System.Access.{rotate-Keeps}
use vintage.System.Invariant.{wallets_apart}
use vintage.System.Keeps.{run-Keeps}
use vintage.System.Spent.{Held-Invariant, run-Spent}

abbrev Stored : ℕ → ℕ → World → Type 0
Stored hash k w = Held hash k (λ x. true) w

abbrev Spent : ℕ → ℕ → World → Type 0
Spent hash k w = Held hash k is_spent w

-- What a claim of the row leaves.
abbrev Claimed : ℕ → ℕ → Bool → World → Type 0
Claimed hash k true w = Spent hash k w
Claimed hash k false w = Unit {0}

refuse_reuse-fails :
    {P : World → Type 0} {Q : TokenPair → World → Type 0} (user : ℕ)
    → Ensures P (refuse_reuse user) Q
unfolding refuse_reuse throw
refuse_reuse-fails {P = P} {Q = Q} user =
    Ensures-bind (λ a v. Unit {0}) (record { at = λ w p a v e. tt })
      (λ a. Ensures-returns Q (λ w p. tt))

use_token-Claimed : (hash k now : ℕ) → Ensures (Stored hash k) (use_token k now) (Claimed hash k)
unfolding use_token claim
use_token-Claimed hash k now = Ensures-returns (Claimed hash k) (λ w (x, (f, g, t, n)).
    elim (Bool-cases (is_spent x)) [
      | inl s ↦ rw g (rw s tt)
      | inr s ↦
          let p = find-passes (has_hash hash) k x w.tokens f in
          let z = record x { used_at = some now } in
          rw g (
            rw s (
              z,
              (
                find-insert_self (has_hash hash) k x z w.tokens f g p p,
                lookup-insert_self k z w.tokens,
                refl,
                n,
              ),
            ))
    ])

module _ (hash k : ℕ) (env : Env) (inner : Schedule) where
  abbrev other : World → World
  other = run env inner

  other-Stored : (w : World) → Stored hash k w → Stored hash k (other w)
  other-Stored w h =
      run-Keeps (Held-Invariant hash k (λ x. true) any-IsStable) env inner
        (wallets_apart (λ d v h. h)) w h

  interleave-Stored : Keeps (Stored hash k) (interleave other)
  unfolding interleave
  interleave-Stored = record { at = other-Stored }

  interleave-Spent : Keeps (Spent hash k) (interleave other)
  unfolding interleave
  interleave-Spent = record { at = λ w h. run-Spent env inner hash k w h }

  branch-Spent :
      (c : Bool) (m : Action TokenPair) (user : ℕ)
      → Keeps (Spent hash k) m
      → Ensures (Claimed hash k c) (branch c m (refuse_reuse user)) (λ a. Spent hash k)
  unfolding branch
  branch-Spent true m user h = Ensures-keep h
  branch-Spent false m user h = refuse_reuse-fails user

  redeem-Spent :
      (t : RefreshToken) (fresh : Text)
      → Ensures (Stored hash k) (redeem other env.crypto k t fresh) (λ a. Spent hash k)
  unfolding redeem
  redeem-Spent t fresh = Ensures-after (Keeps-gets _) (λ now.
      Ensures-after (Keeps-throw_if _ _) (λ a. Ensures-after interleave-Stored (λ b.
        Ensures-after (Keeps-gets _) (λ later.
          Ensures-bind (Claimed hash k) (use_token-Claimed hash k later) (λ c.
            branch-Spent c _ t.user (
              Keeps-bind (interleave other) _ interleave-Spent (λ d.
                rotate-Keeps (Held-Invariant hash k is_spent is_spent-IsStable) other
                  (run-Spent env inner hash k) env.crypto k t.user fresh)))))))

  first-Spent :
      (x : RefreshToken) (w : World) (b : Bool) (fresh : Text)
      → Stored hash k w
      → Ensures
          (λ v. v ≡ w)
          (branch b (refuse_reuse x.user) (redeem other env.crypto k x fresh))
          (λ a. Spent hash k)
  unfolding branch
  first-Spent x w true fresh h = refuse_reuse-fails x.user
  first-Spent x w false fresh h = record {
    at = λ v e. (redeem-Spent x fresh).at v (subst (Stored hash k) (sym e) h);
  }

refused_lem :
    {P : World → Type 0} (user : ℕ) (m : Action TokenPair) (b : Bool)
    → b ≡ true
    → Ensures P (branch b (refuse_reuse user) m) (λ a v. ⊥)
unfolding branch
refused_lem user m true h = refuse_reuse-fails user
refused_lem user m false h = cc h

-- Where the row of the hash is known, the rest of a redemption starts from it.
found_lem :
    {k : ℕ} {x : RefreshToken} {o : Option (ℕ × RefreshToken)} {p : ℕ × RefreshToken} (w : World)
    (hash : ℕ)
    → o ≡ find (has_hash hash) w.tokens
    → o ≡ some p
    → find (has_hash hash) w.tokens ≡ some (k, x)
    → (k, x) ≡ p
found_lem w hash e i f = cc (e, i, f)

refresh_token-Spent :
    (env : Env) (inner : Schedule) (raw fresh : Text) (k : ℕ) (x : RefreshToken) (w : World)
    → find (has_hash (env.crypto.digest raw)) w.tokens ≡ some (k, x)
    → lookup k w.tokens ≡ some x
    → k < w.next_id
    → Ensures
        (λ v. v ≡ w)
        (refresh_token (run env inner) env.crypto raw fresh)
        (λ a. Spent (env.crypto.digest raw) k)
unfolding refresh_token find_first
refresh_token-Spent env inner raw fresh k x w f g n =
    let hash = env.crypto.digest raw in
    Ensures-guarded _ _ (λ long.
      Ensures-reading (λ v. find (has_hash hash) v.tokens)
        (λ o e. Ensures-finding o _ (λ p i.
          subst
            (λ q.
              Ensures (λ v. v ≡ w)
                (branch (is_spent q.1) (refuse_reuse (q.1).user)
                  (redeem (run env inner) env.crypto q.0 q.1 fresh))
                (λ a. Spent hash k))
            (found_lem w hash e i f)
            (first-Spent hash k env inner x w (is_spent x) fresh (x, (f, g, refl, n))))))

-- A redemption of a spent token never answers.
refresh_token-refused :
    (meanwhile : World → World) (crypto : Crypto) (raw fresh : Text) (k : ℕ) (w : World)
    → Spent (crypto.digest raw) k w
    → Ensures (λ v. v ≡ w) (refresh_token meanwhile crypto raw fresh) (λ a v. ⊥)
unfolding refresh_token find_first
refresh_token-refused meanwhile crypto raw fresh k w (x, (f, g, s, n)) =
    let hash = crypto.digest raw in
    Ensures-guarded _ _ (λ long.
      Ensures-reading (λ v. find (has_hash hash) v.tokens)
        (λ o e. Ensures-finding o _ (λ p i.
          subst
            (λ q.
              Ensures (λ v. v ≡ w)
                (branch (is_spent q.1) (refuse_reuse (q.1).user)
                  (redeem meanwhile crypto q.0 q.1 fresh))
                (λ a v. ⊥))
            (found_lem w hash e i f) (refused_lem x.user _ (is_spent x) s))))

paired : {A B : Type 0} (r : A × B) {a : A} → r.0 ≡ a → r ≡ (a, r.1)
paired r h = ap (λ z. (z, r.1)) h

-- A token, stored under an id that was given out, that is redeemed while any schedule of requests is
-- served in between is never redeemed again: after any further schedule of requests, and whatever is
-- served in between, a redemption of the same token does not answer.
pub refresh_token-once :
    (env : Env) (inner after : Schedule) (other : World → World) (raw fresh again : Text) (k : ℕ)
    (x : RefreshToken) (pair pair' : TokenPair) (w v : World)
    → find (has_hash (env.crypto.digest raw)) w.tokens ≡ some (k, x)
    → lookup k w.tokens ≡ some x
    → k < w.next_id
    → refresh_token (run env inner) env.crypto raw fresh w ≡ (ok pair, v)
    → ¬ ((refresh_token other env.crypto raw again (run env after v)).0 ≡ ok pair')
refresh_token-once env inner after other raw fresh again k x pair pair' w v f g n done second =
    let hash = env.crypto.digest raw in
    let spent : Spent hash k v =
      (refresh_token-Spent env inner raw fresh k x w f g n).at w refl pair v done in
    (refresh_token-refused other env.crypto raw again k (run env after v)
        (run-Spent env after hash k v spent)).at
      (run env after v) refl pair' _
      (paired (refresh_token other env.crypto raw again (run env after v)) second)
