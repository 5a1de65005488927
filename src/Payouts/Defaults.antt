-- ===== src/Payouts/Defaults.antt =====
-- The default payout method of a user (apps/api/src/wallet/payout-methods.service.ts).
use vintage.Prelude.{
  ℕ, ◌≡◌, refl, sym, ◌∙◌, Bool, true, false, none, some, ◌==◌, ◌||◌, subst, ap, arith,
  if◌then◌else◌,
}
use vintage.Prelude.Dict.{Dict, lookup, insert, lookup-insert_self}
use vintage.World.{World, PayoutMethod}
use vintage.World.Action.{ok, modify}
use vintage.Validation.{Text}
use vintage.Validation.Pix.{PixKeyType, normalise_pix_key}
use vintage.World.Ensures.{
  Ensures, Ensures-transaction, Ensures-returns, Ensures-guarded, Ensures-finding, Ensures-bind,
}
use vintage.World.Tables.{methods, update}
use vintage.World.Reads.{Ensures-looking}
use vintage.Payouts.Methods.{
  demote_defaults, make_default, set_default, is_other_default, owned_count, new_method,
  create_method,
}
use vintage.Payouts.Stored.{create_method-Stored}
use vintage.Payouts.Marks.{
  AtMostOne, demote, demote_left, insert_default, insert_plain, demote-AtMostOne, demote_keeps,
  kept_default, only_kept,
}

not_other :
    (user : ℕ) (k : ℕ) (b : PayoutMethod)
    → b.user ≡ user
    → b.is_default ≡ true
    → is_other_default user none k b ≡ true
not_other user k b e h = ground (arith, e, h)

-- The rows after a method was created.
stored_rows :
    (user id : ℕ) (type : PixKeyType) (key : Text) (first : Bool) (now : ℕ) (d : Dict PayoutMethod)
    → AtMostOne d
    → AtMostOne
        (insert id (new_method user type key first now) (if first then demote user none d else d))
stored_rows user id type key true now d h =
    insert_default id (new_method user type key true now) (demote user none d)
      (demote-AtMostOne user none d h)
      (λ k b e t u.
        absurd (ground (arith, (demote_left user none k d b e t).1, not_other user k b u t)))
stored_rows user id type key false now d h =
    insert_plain id (new_method user type key false now) d h refl

-- Where no user has two default methods and a method is created, no user has two default methods.
pub create_method-AtMostOne :
    (lower : Text → Text) (user : ℕ) (type : PixKeyType) (raw : Text) (is_default : Bool)
    (w v : World) (id : ℕ)
    → AtMostOne w.methods
    → create_method lower user type raw is_default w ≡ (ok id, v)
    → AtMostOne v.methods
create_method-AtMostOne lower user type raw is_default w v id h e =
    let s = create_method-Stored lower user type raw is_default w v id e in
    subst AtMostOne (sym s.3) (
      stored_rows user id type (normalise_pix_key lower type raw)
        (is_default || owned_count user w == 0) w.now w.methods h)

-- The method `id` of the user is the default, and the only one.
abbrev pub IsDefault : ℕ → ℕ → World → Type 0
IsDefault user id v =
    AtMostOne v.methods
    × ((m : PayoutMethod) × ((lookup id v.methods ≡ some m)
          × (m.user ≡ user)
          × (m.is_default ≡ true)))

promote_lem :
    (user id : ℕ) (m : PayoutMethod) (w : World)
    → AtMostOne w.methods
    → lookup id w.methods ≡ some m
    → m.user ≡ user
    → Ensures
        (λ v. v ≡ methods.put (demote user (some id) w.methods) w)
        (make_default id)
        (λ a v. IsDefault user id v)
unfolding make_default update
promote_lem user id m w h e o =
    let d = demote user (some id) w.methods in
    let y = record m { is_default = true } in
    let l : lookup id d ≡ some m =
      demote_keeps user (some id) id w.methods m e (kept_default user id m) in
    Ensures-returns (λ a v. IsDefault user id v)
      (λ v p.
        rw (p, l)
          (
            insert_default id y d (demote-AtMostOne user (some id) w.methods h) (λ k b f t u.
                only_kept user id k b (demote_left user (some id) k w.methods b f t).1 (u ∙ o) t),
            (y, (lookup-insert_self id y d, o, refl)),
          ))

demote_step :
    (user id : ℕ) (w : World)
    → Ensures
        (λ v. v ≡ w)
        (demote_defaults user (some id))
        (λ a v. v ≡ methods.put (demote user (some id) w.methods) w)
unfolding demote_defaults modify
demote_step user id w =
    Ensures-returns (λ a v. v ≡ methods.put (demote user (some id) w.methods) w)
      (λ v p. ap (λ x. methods.put (demote user (some id) x.methods) x) p)

set_default_lem :
    (user id : ℕ) (w : World)
    → AtMostOne w.methods
    → Ensures (λ v. v ≡ w) (set_default user id) (λ a v. IsDefault user id v)
unfolding set_default
set_default_lem user id w h = Ensures-transaction (
    Ensures-looking methods id (λ found f. Ensures-finding _ _ (λ m s. Ensures-guarded _ _ (λ own.
      Ensures-bind _ (demote_step user id w)
        (λ a. promote_lem user id m w h (cc (s, f)) (ground (arith, own)))))))

-- Where no user has two default methods and setDefault returns, no user has two, and the
-- method is the user's and is the default.
pub set_default-IsDefault :
    (user id : ℕ) (w v : World)
    → AtMostOne w.methods
    → set_default user id w ≡ (ok tt, v)
    → IsDefault user id v
set_default-IsDefault user id w v h e = (set_default_lem user id w h).at w refl tt v e
