-- ===== src/World/Ensures.antt =====
-- What holds after an action that returns, by one rule for each way to build the action.
use vintage.Prelude.{◌≡◌, refl, subst, ap, Bool, true, false, Option, none, some}
use vintage.World.State.{World}
use vintage.World.Action.{
  Exception, Result, ok, err, Action, pure, throw, gets, throw_if, or_throw, transaction, ◌>>=◌,
  ◌>>◌, resume, roll_back, interleave,
}
use vintage.World.Keeps.{Keeps}

-- From a state with `P`, where `m` returns, `Q` holds of what it returns and of the state after it.
pub record Ensures {A : Type 0} (P : World → Type 0) (m : Action A) (Q : A → World → Type 0)
    : Type 0 where
  pub at : (w : World) → P w → (a : A) (v : World) → m w ≡ (ok a, v) → Q a v

resume-ensures :
    {A B : Type 0} (R : A → World → Type 0) (Q : B → World → Type 0) (f : A → Action B)
    (r : Result A × World)
    → ((a : A) (v : World) → r ≡ (ok a, v) → R a v)
    → ((a : A) → Ensures (R a) (f a) Q)
    → (b : B) (u : World) → resume f r ≡ (ok b, u)
    → Q b u
resume-ensures R Q f (ok a, v) h k b u e = (k a).at v (h a v refl) b u e
resume-ensures R Q f (err x, v) h k b u e = cc e

transaction-ensures :
    {A : Type 0} (Q : A → World → Type 0) (w : World) (r : Result A × World)
    → ((a : A) (v : World) → r ≡ (ok a, v) → Q a v)
    → (a : A) (v : World) → roll_back w r ≡ (ok a, v)
    → Q a v
transaction-ensures Q w (ok b, u) h a v e = h a v e
transaction-ensures Q w (err x, u) h a v e = cc e

module _ {A B : Type 0} {P : World → Type 0} where
  pub Ensures-bind :
      (R : A → World → Type 0) {Q : B → World → Type 0} {m : Action A} {f : A → Action B}
      → Ensures P m R
      → ((a : A) → Ensures (R a) (f a) Q)
      → Ensures P (m >>= f) Q
  unfolding ◌>>=◌
  Ensures-bind R {Q = Q} {m = m} {f = f} h k = record {
    at = λ w p b u e. resume-ensures R Q f (m w) (λ a v i. h.at w p a v i) k b u e;
  }

module _ {A : Type 0} {P : World → Type 0} where
  pub Ensures-keep : {m : Action A} → Keeps P m → Ensures P m (λ a. P)
  Ensures-keep {m = m} k = record { at = λ w p a v e. subst (λ r. P r.1) e (k.at w p) }

  pub Ensures-transaction :
      {Q : A → World → Type 0} {m : Action A} → Ensures P m Q → Ensures P (transaction m) Q
  unfolding transaction
  Ensures-transaction {Q = Q} {m = m} h = record {
    at = λ w p a v e. transaction-ensures Q w (m w) (λ b u i. h.at w p b u i) a v e;
  }

-- A fact in front of an action that does not speak of the state.
pub Ensures-any :
    {A X : Type 0} {F : X → World → Type 0} {m : Action A} {Q : A → World → Type 0}
    → ((x : X) → Ensures (F x) m Q)
    → Ensures (λ w. (x : X) × F x w) m Q
Ensures-any h = record { at = λ w p a v e. (h p.0).at w p.1 a v e }

pub Ensures-fact :
    {A : Type 0} {U : Type 0} {P : World → Type 0} {m : Action A} {Q : A → World → Type 0}
    → (U → Ensures P m Q)
    → Ensures (λ w. U × P w) m Q
Ensures-fact h = record { at = λ w p a v e. (h p.0).at w p.1 a v e }

-- A step that keeps `P`, in front of the rest.
pub Ensures-after :
    {A B : Type 0} {P : World → Type 0} {Q : B → World → Type 0} {m : Action A} {f : A → Action B}
    → Keeps P m
    → ((a : A) → Ensures P (f a) Q)
    → Ensures P (m >>= f) Q
Ensures-after {P = P} k h = Ensures-bind (λ a. P) (Ensures-keep k) h

abbrev pub Holds : {A : Type 0} → (A → World → Type 0) → Result A × World → Type 0
Holds Q (ok a, w) = Q a w
Holds Q (err e, w) = Unit {0}

-- A step of which the result is known.
pub Ensures-returns :
    {A : Type 0} {P : World → Type 0} {m : Action A} (Q : A → World → Type 0)
    → ((w : World) → P w → Holds Q (m w))
    → Ensures P m Q
Ensures-returns Q h = record { at = λ w p a v e. subst (Holds Q) e (h w p) }

-- What is read, and the guard that was passed.
pub Ensures-gets :
    {A : Type 0} {P : World → Type 0} (f : World → A) → Ensures P (gets f) (λ a w. (a ≡ f w) × P w)
unfolding gets
Ensures-gets {P = P} f = Ensures-returns (λ a w. (a ≡ f w) × P w) (λ w p. (refl, p))

pub Ensures-read :
    {A : Type 0} {w : World} (f : World → A)
    → Ensures (λ v. v ≡ w) (gets f) (λ a v. (a ≡ f w) × (v ≡ w))
unfolding gets
Ensures-read {w = w} f = Ensures-returns (λ a v. (a ≡ f w) × (v ≡ w)) (λ v p. (rw p refl, p))

-- The same, and the rest.
pub Ensures-reading :
    {A B : Type 0} {w : World} (f : World → A) {g : A → Action B} {Q : B → World → Type 0}
    → ((a : A) → a ≡ f w → Ensures (λ v. v ≡ w) (g a) Q)
    → Ensures (λ v. v ≡ w) (gets f >>= g) Q
Ensures-reading f h = Ensures-bind _ (Ensures-read f) (λ a. Ensures-fact (h a))

pub Ensures-throw_if :
    {P : World → Type 0} (b : Bool) (x : Exception)
    → Ensures P (throw_if b x) (λ a w. (b ≡ false) × P w)
unfolding throw_if throw pure
Ensures-throw_if {P = P} true x = Ensures-returns (λ a w. (true ≡ false) × P w) (λ w p. tt)
Ensures-throw_if {P = P} false x = Ensures-returns (λ a w. (false ≡ false) × P w) (λ w p. (refl, p))

pub Ensures-or_throw :
    {A : Type 0} {P : World → Type 0} (o : Option A) (x : Exception)
    → Ensures P (or_throw o x) (λ a w. (o ≡ some a) × P w)
unfolding or_throw throw pure
Ensures-or_throw {P = P} none x = Ensures-returns (λ a w. (none ≡ some a) × P w) (λ w p. tt)
Ensures-or_throw {P = P} (some b) x =
    Ensures-returns (λ a w. (some b ≡ some a) × P w) (λ w p. (refl, p))

pub Ensures-post :
    {A : Type 0} {P : World → Type 0} {m : Action A} {Q R : A → World → Type 0}
    → Ensures P m Q
    → ((a : A) (w : World) → Q a w → R a w)
    → Ensures P m R
Ensures-post h k = record { at = λ w p a v e. k a v (h.at w p a v e) }

pub Ensures-guarded :
    {B : Type 0} {P : World → Type 0} (b : Bool) (x : Exception) {m : Action B}
    {Q : B → World → Type 0}
    → (b ≡ false → Ensures P m Q)
    → Ensures P (throw_if b x >> m) Q
Ensures-guarded b x h = Ensures-bind _ (Ensures-throw_if b x) (λ a. Ensures-fact h)

pub Ensures-finding :
    {A B : Type 0} {P : World → Type 0} (o : Option A) (x : Exception) {m : A → Action B}
    {Q : B → World → Type 0}
    → ((a : A) → o ≡ some a → Ensures P (m a) Q)
    → Ensures P (or_throw o x >>= m) Q
Ensures-finding o x h = Ensures-bind _ (Ensures-or_throw o x) (λ a. Ensures-fact (h a))

transaction-keeps :
    {A : Type 0} (P : World → Type 0) (w : World) (r : Result A × World)
    → P w
    → ((a : A) (v : World) → r ≡ (ok a, v) → P v)
    → P (roll_back w r).1
transaction-keeps P w (ok a, v) p h = h a v refl
transaction-keeps P w (err x, v) p h = p

-- A transaction keeps what its body ensures where it returns.
pub Keeps-ensured :
    {A : Type 0} {P : World → Type 0} {m : Action A}
    → Ensures P m (λ a. P)
    → Keeps P (transaction m)
unfolding transaction
Keeps-ensured {P = P} {m = m} h = record {
  at = λ w p. transaction-keeps P w (m w) p (λ a v e. h.at w p a v e);
}

pub Ensures-interleaved :
    {B : Type 0} {w : World} (meanwhile : World → World) {m : Action B} {Q : B → World → Type 0}
    → Ensures (λ v. v ≡ meanwhile w) m Q
    → Ensures (λ v. v ≡ w) (interleave meanwhile >> m) Q
unfolding interleave
Ensures-interleaved {w = w} meanwhile h =
    Ensures-bind (λ a v. v ≡ meanwhile w)
      (Ensures-returns (λ a v. v ≡ meanwhile w) (λ v p. ap meanwhile p)) (λ a. h)

assoc_lem :
    {A B C : Type 0} (f : A → Action B) (g : B → Action C) (r : Result A × World)
    → resume g (resume f r) ≡ resume (λ a. f a >>= g) r
unfolding ◌>>=◌
assoc_lem f g (ok a, w) = refl
assoc_lem f g (err e, w) = refl

bind-bind :
    {A B C : Type 0} (m : Action A) (f : A → Action B) (g : B → Action C) (w : World)
    → ((m >>= f) >>= g) w ≡ (m >>= λ a. f a >>= g) w
unfolding ◌>>=◌
bind-bind m f g w = assoc_lem f g (m w)

pub Ensures-assoc :
    {A B C : Type 0} {P : World → Type 0} (m : Action A) (f : A → Action B) (g : B → Action C)
    {Q : C → World → Type 0}
    → Ensures P (m >>= λ a. f a >>= g) Q
    → Ensures P ((m >>= f) >>= g) Q
Ensures-assoc m f g h = record {
  at = λ w p c u e. h.at w p c u (subst (λ r. r ≡ (ok c, u)) (bind-bind m f g w) e);
}

-- What follows an action of which the result is known.
pub bind_lem :
    {A B : Type 0} (m : Action A) (f : A → Action B) (w : World) {a : A} {v : World}
    → m w ≡ (ok a, v)
    → (m >>= f) w ≡ f a v
unfolding ◌>>=◌
bind_lem m f w e = rw e refl

-- A fact that does not speak of what follows.
pub Ensures-done :
    {A : Type 0} {U : Type 0} {P : World → Type 0} {m : Action A} → U → Ensures P m (λ a v. U)
Ensures-done u = record { at = λ w p a v e. u }
