-- ===== src/Payouts/Marks.antt =====
-- Writes on the rows of payout methods, of which at most one is the default (apps/api/src/wallet/payout-methods.service.ts).
use vintage.Prelude.{
  ℕ, ◌≡◌, sym, ◌∙◌, true, false, Option, some, [], ◌∷◌, ◌==◌, ==→eq, Bool-cases, inl, inr, subst,
  ap, arith,
}
use vintage.Prelude.Dict.{Dict, lookup, insert, map_rows, lookup-insert}
use vintage.World.{PayoutMethod}
use vintage.Payouts.Methods.{is_other_default}

-- No user has two default methods.
abbrev pub AtMostOne : Dict PayoutMethod → Type 0
AtMostOne d =
    (j k : ℕ) (a b : PayoutMethod)
    → lookup j d ≡ some a
    → lookup k d ≡ some b
    → a.is_default ≡ true
    → b.is_default ≡ true
    → a.user ≡ b.user
    → j ≡ k

abbrev pub demote : ℕ → Option ℕ → Dict PayoutMethod → Dict PayoutMethod
demote user but d = map_rows (is_other_default user but) (λ m. record m { is_default = false }) d

-- A default that is left was one before, and none of those that are demoted.
pub demote_left :
    (user : ℕ) (but : Option ℕ) (k : ℕ) (d : Dict PayoutMethod) (b : PayoutMethod)
    → lookup k (demote user but d) ≡ some b
    → b.is_default ≡ true
    → (lookup k d ≡ some b) × (is_other_default user but k b ≡ false)
demote_left user but k [] b e h = cc e
demote_left user but k ((j, v) ∷ d) b e h = elim (Bool-cases (j == k)) [
  | inl y ↦ elim (Bool-cases (is_other_default user but j v)) [
    | inl z ↦
        let i : record v { is_default = false } ≡ b = cc (rw z at (rw y at e)) in
        let l : false ≡ b.is_default = ap (λ m. m.is_default) i in cc (l, h)
    | inr z ↦
        let i : v ≡ b = cc (rw z at (rw y at e)) in
        (
          rw y (ap some i),
          subst (λ m. is_other_default user but k m ≡ false) i
              (subst (λ q. is_other_default user but q v ≡ false) (==→eq j k y) z),
        )
  ]
  | inr n ↦
      let i : lookup k (demote user but d) ≡ some b = cc (rw n at e) in
      let r = demote_left user but k d b i h in (rw n r.0, r.1)
]

-- A row that is the default is written, and it is the only one of its user.
pub insert_default :
    (id : ℕ) (y : PayoutMethod) (d : Dict PayoutMethod)
    → AtMostOne d
    → ((k : ℕ) (b : PayoutMethod)
        → lookup k d ≡ some b
        → b.is_default ≡ true
        → b.user ≡ y.user
        → k ≡ id)
    → AtMostOne (insert id y d)
insert_default id y d h own j k a b e f s t u =
    let g = lookup-insert id j y d in
    let i = lookup-insert id k y d in
    elim (Bool-cases (id == j)) [
      | inl p ↦ elim (Bool-cases (id == k)) [
        | inl q ↦ sym (==→eq id j p) ∙ ==→eq id k q
        | inr q ↦
            let l : y ≡ a = cc (rw p at g, e) in
            let m : lookup k d ≡ some b = cc (rw q at i, f) in
            sym (==→eq id j p) ∙ sym (own k b m t (sym u ∙ ap (λ z. z.user) (sym l)))
      ]
      | inr p ↦
          let m : lookup j d ≡ some a = cc (rw p at g, e) in
          elim (Bool-cases (id == k)) [
            | inl q ↦
                let l : y ≡ b = cc (rw q at i, f) in
                own j a m s (u ∙ ap (λ z. z.user) (sym l)) ∙ ==→eq id k q
            | inr q ↦ let n : lookup k d ≡ some b = cc (rw q at i, f) in h j k a b m n s t u
          ]
    ]

-- A row that is not the default is written.
pub insert_plain :
    (id : ℕ) (y : PayoutMethod) (d : Dict PayoutMethod)
    → AtMostOne d
    → y.is_default ≡ false
    → AtMostOne (insert id y d)
insert_plain id y d h plain j k a b e f s t u =
    let g = lookup-insert id j y d in
    let i = lookup-insert id k y d in
    elim (Bool-cases (id == j)) [
      | inl p ↦
          let l : y ≡ a = cc (rw p at g, e) in
          let n : a.is_default ≡ false = subst (λ z. z.is_default ≡ false) l plain in cc (n, s)
      | inr p ↦
          let m : lookup j d ≡ some a = cc (rw p at g, e) in
          elim (Bool-cases (id == k)) [
            | inl q ↦
                let l : y ≡ b = cc (rw q at i, f) in
                let n : b.is_default ≡ false = subst (λ z. z.is_default ≡ false) l plain in
                cc (n, t)
            | inr q ↦ let n : lookup k d ≡ some b = cc (rw q at i, f) in h j k a b m n s t u
          ]
    ]

pub demote-AtMostOne :
    (user : ℕ) (but : Option ℕ) (d : Dict PayoutMethod)
    → AtMostOne d
    → AtMostOne (demote user but d)
demote-AtMostOne user but d h j k a b e f s t u =
    h j k a b (demote_left user but j d a e s).0 (demote_left user but k d b f t).0 s t u

pub demote_keeps :
    (user : ℕ) (but : Option ℕ) (k : ℕ) (d : Dict PayoutMethod) (m : PayoutMethod)
    → lookup k d ≡ some m
    → is_other_default user but k m ≡ false
    → lookup k (demote user but d) ≡ some m
demote_keeps user but k [] m e h = e
demote_keeps user but k ((j, v) ∷ d) m e h = elim (Bool-cases (j == k)) [
  | inl y ↦
      let i : v ≡ m = cc (rw y at e) in
      let z : is_other_default user but j v ≡ false =
        subst (λ x. is_other_default user but j x ≡ false) (sym i)
          (subst (λ q. is_other_default user but q m ≡ false) (sym (==→eq j k y)) h) in
      rw y (rw z (ap some i))
  | inr n ↦
      let i : lookup k d ≡ some m = cc (rw n at e) in
      let r = demote_keeps user but k d m i h in rw n r
]

pub kept_default : (user id : ℕ) (m : PayoutMethod) → is_other_default user (some id) id m ≡ false
kept_default user id m = ground arith

pub only_kept :
    (user id k : ℕ) (b : PayoutMethod)
    → is_other_default user (some id) k b ≡ false
    → b.user ≡ user
    → b.is_default ≡ true
    → k ≡ id
only_kept user id k b h e t = ground (arith, h, e, t)
