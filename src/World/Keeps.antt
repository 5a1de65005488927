-- ===== src/World/Keeps.antt =====
-- Invariants of actions, by one rule for each way to build an action.
use vintage.Prelude.{Bool, true, false, Option, none, some, List, [], ◌∷◌}
use vintage.World.State.{World}
use vintage.World.Action.{
  Exception, Result, ok, err, Action, pure, throw, gets, or_throw, transaction, ◌>>=◌, throw_if,
  modify, when, branch, with_some, on_option, swallow, for_each, roll_back, resume, attempt,
  succeeded, resume_signal, catch_signal,
}

-- `m` keeps `P`, whether it returns or throws.
pub record Keeps {A : Type 0} (P : World → Type 0) (m : Action A) : Type 0 where
  pub at : (w : World) → P w → P (m w).1

undo :
    {A : Type 0} (P : World → Type 0) (r : Result A × World) {w : World}
    → P r.1
    → P w
    → P (roll_back w r).1
undo P (ok a, w') k h = k
undo P (err e, w') k h = h

resume-keeps :
    {A B : Type 0} (P : World → Type 0) (r : Result A × World) (f : A → Action B)
    → P r.1
    → ((a : A) → Keeps P (f a))
    → P (resume f r).1
resume-keeps P (ok a, w) f h k = (k a).at w h
resume-keeps P (err e, w) f h k = h

module _ {A : Type 0} {P : World → Type 0} where
  pub Keeps-pure : (a : A) → Keeps P (pure a)
  unfolding pure
  Keeps-pure a = record { at = λ w h. h }

  pub Keeps-throw : (e : Exception) → Keeps P (throw {A = A} e)
  unfolding throw
  Keeps-throw e = record { at = λ w h. h }

  pub Keeps-gets : (f : World → A) → Keeps P (gets f)
  unfolding gets
  Keeps-gets f = record { at = λ w h. h }

  pub Keeps-or_throw : (o : Option A) (e : Exception) → Keeps P (or_throw o e)
  unfolding or_throw
  Keeps-or_throw none e = record { at = λ w h. h }
  Keeps-or_throw (some a) e = record { at = λ w h. h }

  pub Keeps-transaction : (m : Action A) → Keeps P m → Keeps P (transaction m)
  unfolding transaction
  Keeps-transaction m k = record { at = λ w h. undo P (m w) (k.at w h) h }

  pub Keeps-branch : (b : Bool) (m n : Action A) → Keeps P m → Keeps P n → Keeps P (branch b m n)
  unfolding branch
  Keeps-branch true m n km kn = km
  Keeps-branch false m n km kn = kn

  pub Keeps-swallow : (m : Action A) → Keeps P m → Keeps P (swallow m)
  unfolding swallow
  Keeps-swallow m k = record { at = λ w h. k.at w h }

  pub Keeps-with_some :
      (o : Option A) (f : A → Action (Unit {0}))
      → ((a : A) → Keeps P (f a))
      → Keeps P (with_some o f)
  unfolding with_some
  Keeps-with_some none f k = record { at = λ w h. h }
  Keeps-with_some (some a) f k = k a

attempt-keeps : (P : World → Type 0) (r : Result (Unit {0}) × World) → P r.1 → P (succeeded r).1
attempt-keeps P (ok a, w) h = h
attempt-keeps P (err e, w) h = h

module _ {P : World → Type 0} where
  pub Keeps-attempt : (m : Action (Unit {0})) → Keeps P m → Keeps P (attempt m)
  unfolding attempt
  Keeps-attempt m k = record { at = λ w h. attempt-keeps P (m w) (k.at w h) }

  pub Keeps-throw_if : (b : Bool) (e : Exception) → Keeps P (throw_if b e)
  unfolding throw_if
  Keeps-throw_if true e = record { at = λ w h. h }
  Keeps-throw_if false e = record { at = λ w h. h }

  pub Keeps-when : (b : Bool) (m : Action (Unit {0})) → Keeps P m → Keeps P (when b m)
  unfolding when
  Keeps-when true m k = k
  Keeps-when false m k = record { at = λ w h. h }

  pub Keeps-modify : (f : World → World) → ((w : World) → P w → P (f w)) → Keeps P (modify f)
  unfolding modify
  Keeps-modify f k = record { at = k }

resume_signal-keeps :
    {A B : Type 0} (P : World → Type 0) (n : Action B) (f : A → Action B) (r : Result A × World)
    → P r.1
    → Keeps P n
    → ((a : A) → Keeps P (f a))
    → P (resume_signal n f r).1
resume_signal-keeps P n f (ok a, w) h kn kf = (kf a).at w h
resume_signal-keeps P n f (err Exception.race_signal, w) h kn kf = kn.at w h
resume_signal-keeps P n f (err e, w) h kn kf = h

module _ {A B : Type 0} {P : World → Type 0} where
  pub Keeps-catch_signal :
      (m : Action A) (n : Action B) (f : A → Action B)
      → Keeps P m
      → Keeps P n
      → ((a : A) → Keeps P (f a))
      → Keeps P (catch_signal m n f)
  unfolding catch_signal
  Keeps-catch_signal m n f km kn kf = record {
    at = λ w h. resume_signal-keeps P n f (m w) (km.at w h) kn kf;
  }

  pub Keeps-bind :
      (m : Action A) (f : A → Action B) → Keeps P m → ((a : A) → Keeps P (f a)) → Keeps P (m >>= f)
  unfolding ◌>>=◌
  Keeps-bind m f km kf = record { at = λ w h. resume-keeps P (m w) f (km.at w h) kf }

  pub Keeps-on_option :
      (o : Option A) (n : Action B) (f : A → Action B)
      → Keeps P n
      → ((a : A) → Keeps P (f a))
      → Keeps P (on_option o n f)
  unfolding on_option
  Keeps-on_option none n f kn kf = kn
  Keeps-on_option (some a) n f kn kf = kf a

module _ {A : Type 0} {P : World → Type 0} where
  pub Keeps-for_each :
      (xs : List A) (body : A → Action (Unit {0}))
      → ((a : A) → Keeps P (body a))
      → Keeps P (for_each xs body)
  unfolding for_each
  Keeps-for_each [] body k = record { at = λ w h. h }
  Keeps-for_each (x ∷ xs) body k = Keeps-bind (body x) _ (k x) (λ _. Keeps-for_each xs body k)

pub ruleset keeps_rules = (
  Keeps-pure, Keeps-throw, Keeps-gets, Keeps-or_throw, Keeps-transaction, Keeps-branch,
  Keeps-swallow, Keeps-with_some, Keeps-throw_if, Keeps-when, Keeps-bind, Keeps-on_option,
  Keeps-for_each, Keeps-attempt, Keeps-catch_signal,
)
