-- ===== src/Sessions/Held.antt =====
-- The row of a refresh token under the writes on the table (apps/api/src/auth/auth.service.ts): a
-- token that was used or revoked stays so.
use vintage.Prelude.{
  ℕ, ◌<◌, ◌≡◌, Bool, true, false, ◌==◌, some, arith, refl, [], ◌∷◌, if◌then◌else◌, subst, sym,
  Bool-cases, Option-cases, inl, inr, ==→eq,
}
use vintage.Prelude.Dict.{
  Dict, lookup, insert, find, any_row, find-passes, find-insert_self, find-insert_other,
  find-map_where, find-insert_new, lookup-insert, lookup-map_where,
}
use vintage.World.{World, RefreshToken}
use vintage.World.Action.{actions, throw, pure}
use vintage.World.Keeps.{Keeps}
use vintage.World.Tables.{tokens, claim, update, update_many, create}
use vintage.Sessions.{
  has_hash, is_spent, use_token, revoke_user, revoke_hash, link_token, create_token,
}

-- The row with the hash stands under the id `k`, which was given out, and passes a test.
abbrev pub Held : ℕ → ℕ → (RefreshToken → Bool) → World → Type 0
Held hash k test w =
    (x : RefreshToken) × ((find (has_hash hash) w.tokens ≡ some (k, x))
      × (lookup k w.tokens ≡ some x)
      × (test x ≡ true)
      × (k < w.next_id))

-- What passes the test passes it after each of the writes.
pub record IsStable (test : RefreshToken → Bool) : Type 0 where
  pub used :
      (x : RefreshToken) (t : ℕ) → test x ≡ true → test (record x { used_at = some t }) ≡ true
  pub revoked :
      (x : RefreshToken) (t : ℕ) → test x ≡ true → test (record x { revoked_at = some t }) ≡ true
  pub linked :
      (x : RefreshToken) (t : ℕ) → test x ≡ true → test (record x { replaced_by = some t }) ≡ true

pub any-IsStable : IsStable (λ x. true)
any-IsStable = record { used = λ x t h. h; revoked = λ x t h. h; linked = λ x t h. h }

pub is_spent-IsStable : IsStable is_spent
is_spent-IsStable = record {
  used = λ x t h. refl;
  revoked = λ x t h. ground arith;
  linked = λ x t h. h;
}

fresh_lem :
    (hash new k : ℕ) (x : RefreshToken) (d : Dict RefreshToken)
    → find (has_hash hash) d ≡ some (k, x)
    → any_row (has_hash new) d ≡ false
    → (new == hash) ≡ false
fresh_lem hash new k x [] f h = cc f
fresh_lem hash new k x ((i, v) ∷ d) f h = ground (arith, f, h, fresh_lem hash new k x d)

module _ (hash k : ℕ) (test : RefreshToken → Bool) where
  -- One row is rewritten under the same hash.
  insert-Held :
      (j : ℕ) (y z : RefreshToken) (w : World)
      → lookup j w.tokens ≡ some y
      → z.hash ≡ y.hash
      → (test y ≡ true → test z ≡ true)
      → Held hash k test w
      → Held hash k test (record w { tokens = insert j z w.tokens })
  insert-Held j y z w l e stable (x, (f, g, t, n)) =
      let i = lookup-insert j k z w.tokens in
      elim (Bool-cases (j == k)) [
        | inl s ↦
            let q : lookup k w.tokens ≡ some y =
              subst (λ a. lookup a w.tokens ≡ some y) (==→eq j k s) l in
            let r : x ≡ y = cc (g, q) in
            let h : find (has_hash hash) (insert k z w.tokens) ≡ some (k, z) =
              find-insert_self (has_hash hash) k x z w.tokens f g
                (find-passes (has_hash hash) k x w.tokens f)
                (ground (arith, e, r, find-passes (has_hash hash) k x w.tokens f)) in
            (
              z,
              (
                subst (λ a. find (has_hash hash) (insert a z w.tokens) ≡ some (k, z))
                    (sym (==→eq j k s)) h,
                rw s at i,
                stable (subst (λ v. test v ≡ true) r t),
                n,
              ),
            )
        | inr s ↦ (
          x,
          (
            find-insert_other (has_hash hash) j k x y z w.tokens f l (ground (arith, e)) s,
            cc (rw s at i, g),
            t,
            n,
          ),
        )
      ]

  module _ (stable : IsStable test) where
    pub use_token-Held : (id now : ℕ) → Keeps (Held hash k test) (use_token id now)
    unfolding use_token claim
    use_token-Held id now = record {
      at = λ w h. elim (Option-cases (lookup id w.tokens)) [
        | inl n ↦ rw n h
        | inr (y, e) ↦ elim (Bool-cases (is_spent y)) [
          | inl s ↦ rw e (rw s h)
          | inr s ↦ rw e (rw s (insert-Held id y _ w e refl (stable.used y now) h))
        ]
      ];
    }

    pub link_token-Held : (id r : ℕ) → Keeps (Held hash k test) (link_token id r)
    unfolding link_token update
    link_token-Held id r = record {
      at = λ w h. elim (Option-cases (lookup id w.tokens)) [
        | inl n ↦ rw n h
        | inr (y, e) ↦ rw e (insert-Held id y _ w e refl (stable.linked y r) h)
      ];
    }

    revoked_lem :
        (q : RefreshToken → Bool) (now : ℕ) (x : RefreshToken)
        → test x ≡ true
        → test (if q x then record x { revoked_at = some now } else x) ≡ true
    revoked_lem q now x h = elim (Bool-cases (q x)) [
      | inl t ↦ rw t (stable.revoked x now h)
      | inr f ↦ rw f h
    ]

    revoke-Held :
        (q : RefreshToken → Bool) (now : ℕ)
        → Keeps (Held hash k test) (update_many tokens q (λ t. record t { revoked_at = some now }))
    unfolding update_many
    revoke-Held q now = record {
      at = λ w (x, (f, g, t, n)). (
        _,
        (
          find-map_where (has_hash hash) q _ k x w.tokens (λ v. refl) f,
          lookup-map_where q _ k x w.tokens g,
          revoked_lem q now x t,
          n,
        ),
      );
    }

    pub revoke_user-Held : (u now : ℕ) → Keeps (Held hash k test) (revoke_user u now)
    unfolding revoke_user
    revoke_user-Held u now = revoke-Held _ now

    pub revoke_hash-Held : (h now : ℕ) → Keeps (Held hash k test) (revoke_hash h now)
    unfolding revoke_hash
    revoke_hash-Held h now = revoke-Held _ now

  -- A new row has a hash that no row has.
  pub create_token-Held : (t : RefreshToken) → Keeps (Held hash k test) (create_token t)
  unfolding create_token create actions throw pure
  create_token-Held t = record {
    at = λ w (x, (f, g, p, n)). elim (Bool-cases (any_row (has_hash t.hash) w.tokens)) [
      | inl taken ↦ rw taken (x, (f, g, p, n))
      | inr free ↦ rw free (
        x,
        (
          find-insert_new (has_hash hash) w.next_id k x t w.tokens f
              (fresh_lem hash t.hash k x w.tokens f free) (ground (arith, n)),
          ground (arith, g, n, lookup-insert w.next_id k t w.tokens),
          p,
          omega (arith, n),
        ),
      )
    ];
  }
