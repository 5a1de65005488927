-- ===== src/World/Reads.antt =====
-- What holds after reads of the tables and after a claim that is won.
use vintage.Prelude.{
  ℕ, ◌≡◌, Bool, true, false, Option, some, refl, subst, Option-cases, Bool-cases, inl, inr,
}
use vintage.Prelude.Dict.{lookup, insert}
use vintage.World.State.{World}
use vintage.World.Action.{Action, Exception, ok, or_throw, throw, pure, ◌>>=◌}
use vintage.World.Ensures.{
  Ensures, Ensures-reading, Ensures-bind, Ensures-fact, Ensures-or_throw, bind_lem,
}
use vintage.World.Tables.{
  Table, find_unique, find_or_throw, claim, claim_wins, claim_loses, claim_misses,
}

-- What is read of a table, and the row that a claim wins, in front of the rest.
module _ {V B : Type 0} (t : Table V) {w : World} {Q : B → World → Type 0} where
  pub Ensures-looking :
      (k : ℕ) {g : Option V → Action B}
      → ((a : Option V) → a ≡ lookup k (t.rows w) → Ensures (λ v. v ≡ w) (g a) Q)
      → Ensures (λ v. v ≡ w) (find_unique t k >>= g) Q
  unfolding find_unique
  Ensures-looking k h = Ensures-reading _ h

  pub Ensures-getting :
      (k : ℕ) {g : V → Action B}
      → ((a : V) → lookup k (t.rows w) ≡ some a → Ensures (λ v. v ≡ w) (g a) Q)
      → Ensures (λ v. v ≡ w) (find_or_throw t k >>= g) Q
  unfolding find_or_throw or_throw throw pure
  Ensures-getting k h =
      Ensures-bind (λ a v. (lookup k (t.rows w) ≡ some a) × (v ≡ w))
        (record {
          at = λ v p a u e.
              let r =
                (Ensures-or_throw {P = λ x. x ≡ w} (lookup k (t.rows v))
                    Exception.database_error).at
                  v p a u e in
              (subst (λ x. lookup k (t.rows x) ≡ some a) p r.0, r.1);
        })
        (λ a. Ensures-fact (h a))

  pub Ensures-claiming :
      (k : ℕ) (test : V → Bool) (f : V → V) (g : Bool → Action B)
      → ((x : V)
          → lookup k (t.rows w) ≡ some x
          → test x ≡ true
          → Ensures (λ v. v ≡ t.put (insert k (f x) (t.rows w)) w) (g true) Q)
      → Ensures (λ v. v ≡ w) (g false) Q
      → Ensures (λ v. v ≡ w) (claim t k test f >>= g) Q
  Ensures-claiming k test f g won lost = record {
    at = λ v p b u e.
        let step : (c : Bool) (x : World) → claim t k test f w ≡ (ok c, x) → g c x ≡ (ok b, u) =
          λ c x i. cc (bind_lem (claim t k test f) g w i, e, p) in
        elim (Option-cases (lookup k (t.rows w))) [
          | inl n ↦ lost.at w refl b u (step false w (claim_misses t k test f w n))
          | inr (x, s) ↦ elim (Bool-cases (test x)) [
            | inl y ↦ (won x s y).at _ refl b u (step true _ (claim_wins t k test f w s y))
            | inr n ↦ lost.at w refl b u (step false w (claim_loses t k test f w s n))
          ]
        ];
  }
