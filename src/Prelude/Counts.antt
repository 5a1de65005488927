-- ===== src/Prelude/Counts.antt =====
-- How many rows of a table pass a test.
use Prim.Native.Nat.{ℕ, ◌+◌, ◌≤◌}
use mathlib.Core.Path.{◌≡◌}
use mathlib.Core.Bool.{Bool, true, false, not, ◌||◌}
use mathlib.Core.Option.{some}
use mathlib.Core.List.{[], ◌∷◌}
use native.Mathlib.Omega.{arith}
use vintage.Prelude.Lists.{length}
use vintage.Prelude.Dict.{Dict, lookup, insert, rows_where, map_where}

module _ {ℓ} {V : Type ℓ} where
  abbrev pub count : (V → Bool) → Dict V → ℕ
  count t d = length (rows_where (λ k v. t v) d)

  pub count-insert :
      (t : V → Bool) (k : ℕ) (v : V) (d : Dict V) → count t (insert k v d) ≤ count t d + 1
  count-insert t k v [] = ground arith
  count-insert t k v ((j, u) ∷ d) = ground (arith, count-insert t k v d)

  pub count-insert_other :
      (t : V → Bool) (k : ℕ) (v : V) (d : Dict V) → t v ≡ false → count t (insert k v d) ≤ count t d
  count-insert_other t k v [] h = ground (arith, h)
  count-insert_other t k v ((j, u) ∷ d) h = ground (arith, h, count-insert_other t k v d h)

  -- A row is replaced by one that passes only where the row does.
  pub count-insert_found :
      (t : V → Bool) (k : ℕ) (u v : V) (d : Dict V)
      → lookup k d ≡ some u
      → (not (t v) || t u) ≡ true
      → count t (insert k v d) ≤ count t d
  count-insert_found t k u v [] e h = ground arith
  count-insert_found t k u v ((j, x) ∷ d) e h =
      ground (arith, e, h, λ (i : lookup k d ≡ some u). count-insert_found t k u v d i h)

  pub count-map_where :
      (t p : V → Bool) (f : V → V) (d : Dict V)
      → ((v : V) → (not (t (f v)) || t v) ≡ true)
      → count t (map_where p f d) ≤ count t d
  count-map_where t p f [] h = ground arith
  count-map_where t p f ((j, x) ∷ d) h = ground (arith, h x, count-map_where t p f d h)
