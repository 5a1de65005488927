-- ===== src/System/Spent.antt =====
-- Refresh tokens under schedules of requests.
use vintage.Prelude.{ℕ, ◌<◌, ◌≡◌, Bool, true, some, arith}
use vintage.Prelude.Dict.{find, lookup}
use vintage.World.{World, RefreshToken}
use vintage.World.Keeps.{Keeps}
use vintage.Payments.{mark_succeeded}
use vintage.Sessions.{has_hash, is_spent}
use vintage.Sessions.Held.{
  Held, IsStable, is_spent-IsStable, use_token-Held, link_token-Held, revoke_user-Held,
  revoke_hash-Held, create_token-Held,
}
use vintage.System.{Env, Schedule, run}
use vintage.System.Invariant.{wallets_apart, Writes, TokenWrites, Invariant}
use vintage.System.Rows.{row_writes}
use vintage.System.Whole.{whole}
use vintage.System.Keeps.{run-Keeps}

module _ (hash k : ℕ) (test : RefreshToken → Bool) (stable : IsStable test) where
  mark_succeeded-Held : (a b : ℕ) → Keeps (Held hash k test) (mark_succeeded a b)
  unfolding mark_succeeded
  mark_succeeded-Held a b = record { at = λ w h. h }

  Held-Writes : Writes (Held hash k test)
  Held-Writes =
      row_writes
        (λ p c o d n.
          (x : RefreshToken) × ((find (has_hash hash) d ≡ some (k, x))
            × (lookup k d ≡ some x)
            × (test x ≡ true)
            × (k < n)))
        (λ p c o d n (x, (f, g, t, i)). (x, (f, g, t, omega (arith, i)))) mark_succeeded-Held

  Held-TokenWrites : TokenWrites (Held hash k test)
  Held-TokenWrites = record {
    spends = use_token-Held hash k test stable;
    sweeps = revoke_user-Held hash k test stable;
    signs_out = revoke_hash-Held hash k test stable;
    links = link_token-Held hash k test stable;
    issues = create_token-Held hash k test;
  }

  pub Held-Invariant : Invariant (Held hash k test)
  Held-Invariant =
      whole Held-Writes
        (record {
          put_keeps = λ d w h. h;
          id_keeps = λ w (x, (f, g, t, i)). (x, (f, g, t, omega (arith, i)));
        })
        (record {
          put_keeps = λ d w h. h;
          id_keeps = λ w (x, (f, g, t, i)). (x, (f, g, t, omega (arith, i)));
        })
        (record {
          put_keeps = λ d w h. h;
          id_keeps = λ w (x, (f, g, t, i)). (x, (f, g, t, omega (arith, i)));
        })
        Held-TokenWrites

-- A refresh token that was used or revoked, and is stored under an id that was given out, is used or
-- revoked after any schedule of requests, interleaved in any way.
pub run-Spent :
    (env : Env) (s : Schedule) (hash k : ℕ) (w : World)
    → Held hash k is_spent w
    → Held hash k is_spent (run env s w)
run-Spent env s hash k w h =
    run-Keeps (Held-Invariant hash k is_spent is_spent-IsStable) env s (wallets_apart (λ d v h. h))
      w h
