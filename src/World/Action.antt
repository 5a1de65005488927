-- ===== src/World/Action.antt =====
-- A request on the shared state: what it wrote before it throws stays written, unless the writes
-- stand in a `$transaction`.
use vintage.Prelude.{Bool, true, false, Option, none, some, List, [], ◌∷◌}
use vintage.World.State.{World, Effect}

-- The exceptions of @nestjs/common that the services throw, the sentinels of the services
-- (`OrderStateRaceSignal`, `DuplicateWebhookSignal`), and an error of the database client or of the
-- client of the payment provider.
pub data Exception : Type 0 where
  not_found forbidden bad_request conflict race_signal database_error : Exception
  unauthorized service_unavailable provider_error : Exception

pub data Result (A : Type 0) : Type 0 where
  ok : A → Result A
  err : Exception → Result A

abbrev pub Action : Type 0 → Type 0
Action A = World → Result A × World

module _ {A : Type 0} where
  unfoldable pub pure : A → Action A
  pure a w = (ok a, w)

  unfoldable pub throw : Exception → Action A
  throw e w = (err e, w)

  unfoldable pub gets : (World → A) → Action A
  gets f w = (ok (f w), w)

  unfoldable pub or_throw : Option A → Exception → Action A
  unfolding pure throw
  or_throw none e = throw e
  or_throw (some a) e = pure a

  abbrev pub roll_back : World → Result A × World → Result A × World
  roll_back w (ok a, w') = (ok a, w')
  roll_back w (err e, w') = (err e, w)

  -- `$transaction`: an exception takes back what was written.
  unfoldable pub transaction : Action A → Action A
  transaction m w = roll_back w (m w)

abbrev pub resume : {A B : Type 0} → (A → Action B) → Result A × World → Result B × World
resume f (ok a, w) = f a w
resume f (err e, w) = (err e, w)

infixl 5 ◌>>=◌ ◌>>◌
unfoldable pub ◌>>=◌ : {A B : Type 0} → Action A → (A → Action B) → Action B
◌>>=◌ m f w = resume f (m w)

abbrev pub ◌>>◌ : {A B : Type 0} → Action A → Action B → Action B
m >> k = m >>= λ _. k

unfoldable pub throw_if : Bool → Exception → Action (Unit {0})
unfolding pure throw
throw_if true e = throw e
throw_if false e = pure tt

unfoldable pub modify : (World → World) → Action (Unit {0})
modify f w = (ok tt, f w)

unfoldable pub when : Bool → Action (Unit {0}) → Action (Unit {0})
unfolding pure
when true m = m
when false m = pure tt

unfoldable pub branch : {A : Type 0} → Bool → Action A → Action A → Action A
branch true m n = m
branch false m n = n

-- `if (x) { … }` at a value that may be null.
unfoldable pub with_some : {A : Type 0} → Option A → (A → Action (Unit {0})) → Action (Unit {0})
unfolding pure
with_some none f = pure tt
with_some (some a) f = f a

unfoldable pub on_option : {A B : Type 0} → Option A → Action B → (A → Action B) → Action B
on_option none n f = n
on_option (some a) n f = f a

-- `try { … } catch { … }` where the handler swallows every exception.
unfoldable pub swallow : {A : Type 0} → Action A → Action (Unit {0})
swallow m w = (ok tt, (m w).1)

abbrev pub succeeded : Result (Unit {0}) × World → Result Bool × World
succeeded (ok a, w) = (ok true, w)
succeeded (err e, w) = (ok false, w)

-- `try { await m; done = true } catch { … }`.
unfoldable pub attempt : Action (Unit {0}) → Action Bool
attempt m w = succeeded (m w)

-- `try { r = await m } catch (err) { if (err instanceof Signal) handler; throw err }`, then the rest.
abbrev pub resume_signal :
    {A B : Type 0} → Action B → (A → Action B) → Result A × World → Result B × World
resume_signal handler f (ok a, w) = f a w
resume_signal handler f (err Exception.race_signal, w) = handler w
resume_signal handler f (err e, w) = (err e, w)

unfoldable pub catch_signal : {A B : Type 0} → Action A → Action B → (A → Action B) → Action B
catch_signal m handler f w = resume_signal handler f (m w)

unfoldable pub for_each : {A : Type 0} → List A → (A → Action (Unit {0})) → Action (Unit {0})
unfolding pure ◌>>=◌
for_each [] body = pure tt
for_each (x ∷ xs) body = body x >> for_each xs body

-- What leaves the process.
unfoldable pub emit : Effect → Action (Unit {0})
emit e w = (ok tt, record w { outbox = e ∷ w.outbox })

-- What other requests commit between two calls of this one.
unfoldable pub interleave : (World → World) → Action (Unit {0})
interleave meanwhile w = (ok tt, meanwhile w)

-- To unfold this name is to unfold every combinator above.
unfoldable pub actions : Unit {0}
unfolding gets or_throw transaction ◌>>=◌ throw_if modify when branch with_some on_option swallow
    attempt catch_signal emit interleave
actions = tt
