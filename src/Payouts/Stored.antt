-- ===== src/Payouts/Stored.antt =====
-- The payout method that `create` of apps/api/src/wallet/payout-methods.service.ts stores.
use vintage.Prelude.{
  ◌≡◌, ◌<◌, refl, ap, subst, Bool, true, false, none, ◌==◌, ◌||◌, if◌then◌else◌, ℕ, arith,
}
use vintage.Prelude.Dict.{insert, map_rows}
use vintage.World.{World}
use vintage.World.Action.{ok, when, modify, pure}
use vintage.World.Ensures.{
  Ensures, Ensures-transaction, Ensures-returns, Ensures-reading, Ensures-guarded, Ensures-bind,
  Ensures-post,
}
use vintage.World.Tables.{methods, create}
use vintage.Validation.{Text}
use vintage.Validation.Pix.{PixKeyType, normalise_pix_key, is_valid_pix_key}
use vintage.Payouts.Methods.{
  max_methods_per_user, owned_count, has_method, is_other_default, demote_defaults, new_method,
  create_method_tx, create_method,
}

-- The method `id` is stored under a valid key that the user does not have yet, and is the default if it was asked for
-- or is the first one.
abbrev pub Stored : (Text → Text) → ℕ → PixKeyType → Text → Bool → World → ℕ → World → Type 0
Stored lower user type raw is_default w id v =
    let key = normalise_pix_key lower type raw in
    let first = is_default || owned_count user w == 0 in
    (is_valid_pix_key type key ≡ true)
    × (owned_count user w < max_methods_per_user)
    × (has_method user type key w ≡ false)
    × (v.methods
        ≡ insert id (new_method user type key first w.now) (
            if first
            then map_rows (is_other_default user none) (λ m. record m { is_default = false })
                w.methods
            else w.methods))

abbrev demoted : ℕ → Bool → World → World
demoted user b w = record w {
  methods =
      if b
      then map_rows (is_other_default user none) (λ m. record m { is_default = false }) w.methods
      else w.methods;
}

demote_lem :
    (user : ℕ) (b : Bool) (w : World)
    → Ensures (λ v. v ≡ w) (when b (demote_defaults user none)) (λ a v. v ≡ demoted user b w)
unfolding when demote_defaults modify pure
demote_lem user true w =
    Ensures-returns (λ a v. v ≡ demoted user true w) (λ v p. ap (demoted user true) p)
demote_lem user false w = Ensures-returns (λ a v. v ≡ demoted user false w) (λ v p. p)

-- The new row, after the defaults are demoted.
insert_lem :
    (user : ℕ) (type : PixKeyType) (key : Text) (b : Bool) (now : ℕ) (w : World)
    → now ≡ w.now
    → Ensures
        (λ v. v ≡ demoted user b w)
        (create methods (new_method user type key b now))
        (λ id v.
          v.methods ≡ insert id (new_method user type key b w.now) (demoted user b w).methods)
unfolding create
insert_lem user type key b now w e = Ensures-returns _ (λ v p. rw (p, e) refl)

create_lem :
    (lower : Text → Text) (user : ℕ) (type : PixKeyType) (raw : Text) (is_default : Bool)
    (w : World)
    → Ensures
        (λ v. v ≡ w)
        (create_method lower user type raw is_default)
        (Stored lower user type raw is_default w)
unfolding create_method create_method_tx
create_lem lower user type raw is_default w = Ensures-guarded _ _ (λ valid. Ensures-transaction (
    Ensures-reading _ (λ n c. Ensures-guarded _ _ (λ room. Ensures-reading _ (λ taken t.
      Ensures-guarded _ _ (λ unique. Ensures-bind _ (demote_lem user (is_default || n == 0) w) (λ a.
        Ensures-reading _ (λ now i.
          Ensures-post
            (insert_lem user type (normalise_pix_key lower type raw) (is_default || n == 0) now w i)
            (λ id v p. (
              ground (arith, valid),
              ground (arith, room, c),
              cc (t, unique),
              subst
                  (λ k.
                    v.methods
                    ≡ insert id
                        (new_method user type (normalise_pix_key lower type raw)
                          (is_default || k == 0) w.now)
                        (demoted user (is_default || k == 0) w).methods)
                  c p,
            ))))))))))

-- Where a payout method is created, its key is valid for its type in its canonical form, the user had fewer methods
-- than the limit and none of the type with that key, the new row holds the canonical key and is the default if it was asked for
-- or is the first, and then the user's other defaults are demoted.
pub create_method-Stored :
    (lower : Text → Text) (user : ℕ) (type : PixKeyType) (raw : Text) (is_default : Bool)
    (w v : World) (id : ℕ)
    → create_method lower user type raw is_default w ≡ (ok id, v)
    → Stored lower user type raw is_default w id v
create_method-Stored lower user type raw is_default w v id e =
    (create_lem lower user type raw is_default w).at w refl id v e
