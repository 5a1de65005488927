-- ===== src/Prelude/Dict.antt =====
-- A table whose rows are found by a numeric key, in insertion order.
use Prim.Native.Nat.{ℕ}
use mathlib.Core.Path.{◌≡◌, refl}
use mathlib.Core.Bool.{Bool, true, false}
use mathlib.Core.Option.{Option, none, some}
use mathlib.Core.List.{List, [], ◌∷◌}
use native.Mathlib.Omega.{arith}
use vintage.Prelude.Tests.{◌==◌, if◌then◌else◌, Bool-cases}
use mathlib.Core.Logic.{inl, inr}

abbrev pub Dict {ℓ} : Type ℓ → Type ℓ
Dict V = List (ℕ × V)

module _ {ℓ} {V : Type ℓ} where
  abbrev pub lookup : ℕ → Dict V → Option V
  lookup k [] = none
  lookup k ((j, v) ∷ d) = if j == k then some v else lookup k d

  abbrev pub insert : ℕ → V → Dict V → Dict V
  insert k v [] = (k, v) ∷ []
  insert k v ((j, w) ∷ d) = if j == k then (j, v) ∷ d else (j, w) ∷ insert k v d

  -- The first row that passes a test, with its key.
  abbrev pub find : (V → Bool) → Dict V → Option (ℕ × V)
  find p [] = none
  find p ((j, v) ∷ d) = elim (p v) [ true ↦ some (j, v) | false ↦ find p d ]

  -- The rows that pass a test, in order.
  abbrev pub rows_where : (ℕ → V → Bool) → Dict V → Dict V
  rows_where p [] = []
  rows_where p ((j, v) ∷ d) =
      let rest = rows_where p d in elim (p j v) [ true ↦ (j, v) ∷ rest | false ↦ rest ]

  -- Whether a row passes a test.
  abbrev pub any_row : (V → Bool) → Dict V → Bool
  any_row p [] = false
  any_row p ((j, v) ∷ d) = elim (p v) [ true ↦ true | false ↦ any_row p d ]

  -- The rows that pass a test are rewritten.
  abbrev pub map_where : (V → Bool) → (V → V) → Dict V → Dict V
  map_where p f [] = []
  map_where p f ((j, v) ∷ d) = (j, if p v then f v else v) ∷ map_where p f d

  abbrev pub map_rows : (ℕ → V → Bool) → (V → V) → Dict V → Dict V
  map_rows p f [] = []
  map_rows p f ((j, v) ∷ d) = (j, if p j v then f v else v) ∷ map_rows p f d

  abbrev pub remove : ℕ → Dict V → Dict V
  remove k [] = []
  remove k ((j, v) ∷ d) = let rest = remove k d in if j == k then rest else (j, v) ∷ rest

  pub lookup-insert :
      (k j : ℕ) (v : V) (d : Dict V)
      → lookup j (insert k v d) ≡ (if k == j then some v else lookup j d)
  lookup-insert k j v [] = refl
  lookup-insert k j v ((i, w) ∷ d) = ground (arith, lookup-insert k j v d)

  pub lookup-insert_self : (k : ℕ) (v : V) (d : Dict V) → lookup k (insert k v d) ≡ some v
  lookup-insert_self k v d = ground (arith, lookup-insert k k v d)

  pub any_row-insert :
      (p : V → Bool) (k : ℕ) (v : V) (d : Dict V) → p v ≡ true → any_row p (insert k v d) ≡ true
  any_row-insert p k v [] h = ground (arith, h)
  any_row-insert p k v ((i, w) ∷ d) h = ground (arith, h, any_row-insert p k v d h)

  pub find-insert :
      (p : V → Bool) (k : ℕ) (v : V) (d : Dict V)
      → any_row p d ≡ false
      → p v ≡ true
      → find p (insert k v d) ≡ some (k, v)
  find-insert p k v [] h t = ground (arith, t)
  find-insert p k v ((i, w) ∷ d) h t = ground (arith, h, t, find-insert p k v d)

  pub find-passes :
      (p : V → Bool) (k : ℕ) (x : V) (d : Dict V) → find p d ≡ some (k, x) → p x ≡ true
  find-passes p k x [] h = cc h
  find-passes p k x ((i, v) ∷ d) h = elim (Bool-cases (p v)) [
    | inl t ↦ ground (arith, h, t)
    | inr f ↦ find-passes p k x d (ground (arith, h, f))
  ]

  -- The row that a test finds, where it or another row is rewritten.
  pub find-insert_self :
      (p : V → Bool) (k : ℕ) (x z : V) (d : Dict V)
      → find p d ≡ some (k, x)
      → lookup k d ≡ some x
      → p x ≡ true
      → p z ≡ true
      → find p (insert k z d) ≡ some (k, z)
  find-insert_self p k x z [] h l t e = cc l
  find-insert_self p k x z ((i, v) ∷ d) h l t e = elim (Bool-cases (i == k)) [
    | inl s ↦ ground (arith, h, l, t, e, s)
    | inr n ↦ elim (Bool-cases (p v)) [
      | inl y ↦ ground (arith, h, y, n)
      | inr f ↦
          let rest = find-insert_self p k x z d (ground (arith, h, f)) (ground (arith, l, n)) t e in
          ground (arith, rest, n, f)
    ]
  ]

  pub find-insert_other :
      (p : V → Bool) (j k : ℕ) (x y z : V) (d : Dict V)
      → find p d ≡ some (k, x)
      → lookup j d ≡ some y
      → p z ≡ p y
      → (j == k) ≡ false
      → find p (insert j z d) ≡ some (k, x)
  find-insert_other p j k x y z [] h l e n = cc h
  find-insert_other p j k x y z ((i, v) ∷ d) h l e n = elim (Bool-cases (i == j)) [
    | inl s ↦ ground (arith, h, l, e, n, s)
    | inr m ↦ elim (Bool-cases (p v)) [
      | inl t ↦ ground (arith, h, m, t)
      | inr f ↦
          let rest =
            find-insert_other p j k x y z d (ground (arith, h, f)) (ground (arith, l, m)) e n in
          ground (arith, rest, m, f)
    ]
  ]

  pub lookup-map_where :
      (q : V → Bool) (f : V → V) (k : ℕ) (x : V) (d : Dict V)
      → lookup k d ≡ some x
      → lookup k (map_where q f d) ≡ some (if q x then f x else x)
  lookup-map_where q f k x [] h = cc h
  lookup-map_where q f k x ((i, v) ∷ d) h = ground (arith, h, lookup-map_where q f k x d)

  pub find-map_where :
      (p q : V → Bool) (f : V → V) (k : ℕ) (x : V) (d : Dict V)
      → ((v : V) → p (f v) ≡ p v)
      → find p d ≡ some (k, x)
      → find p (map_where q f d) ≡ some (k, if q x then f x else x)
  find-map_where p q f k x [] e h = cc h
  find-map_where p q f k x ((i, v) ∷ d) e h = ground (arith, h, e v, find-map_where p q f k x d e)

  pub find-insert_new :
      (p : V → Bool) (n k : ℕ) (x v : V) (d : Dict V)
      → find p d ≡ some (k, x)
      → p v ≡ false
      → (n == k) ≡ false
      → find p (insert n v d) ≡ some (k, x)
  find-insert_new p n k x v [] h e s = cc h
  find-insert_new p n k x v ((i, w) ∷ d) h e s =
      ground (arith, h, e, s, find-insert_new p n k x v d)
