-- ===== src/Base/Actions.antt =====
-- The outcome of a Go function that returns `(value, error)` or panics, and a call that changes a
-- state of type `S` on the way.
use mathlib.Core.Path.{◌≡◌, refl}
use mathlib.Core.Logic.{◌⊎◌, inl, inr}
use mathlib.Core.Option.{Option, none, some}
use mathlib.Core.Bool.{Bool}
use membersys.Base.Tests.{if◌then◌else◌}

-- The gRPC codes of `google.golang.org/grpc/codes` that the program uses.
pub data Code : Type 0 where
  not_found internal data_loss unknown : Code

-- `grpc.Errorf(code, …)`, or any other error value. The text of the message is left out.
pub data Error : Type 0 where
  status : Code → Error
  plain : Error

-- `panic` is a run-time panic: a nil pointer or a slice bound out of range.
pub data Result (A : Type 0) : Type 0 where
  ok : A → Result A
  err : Error → Result A
  panic : Result A

abbrev pub Action : Type 0 → Type 0 → Type 0
Action S A = S → Result A × S

module _ {S A : Type 0} where
  abbrev pub pure : A → Action S A
  pure a s = (ok a, s)

  abbrev pub throw : Error → Action S A
  throw e s = (err e, s)

  abbrev pub lift : Result A → Action S A
  lift r s = (r, s)

  abbrev pub or_throw : Option A → Error → Action S A
  or_throw none e = throw e
  or_throw (some a) e = pure a

  -- The value behind a pointer: nil panics.
  abbrev pub deref : Option A → Action S A
  deref none s = (panic, s)
  deref (some a) s = (ok a, s)

infixl 5 ◌>>=◌ ◌>>◌
abbrev pub ◌>>=◌ : {S A B : Type 0} → Action S A → (A → Action S B) → Action S B
◌>>=◌ m f s =
    let (r, s') = m s in elim r [ ok a ↦ f a s' | err e ↦ (err e, s') | panic ↦ (panic, s') ]

abbrev pub ◌>>◌ : {S B : Type 0} → Action S (Unit {0}) → Action S B → Action S B
m >> k = m >>= λ _. k

abbrev pub throw_if : {S : Type 0} → Bool → Error → Action S (Unit {0})
throw_if c e s = (if c then err e else ok tt, s)

-- A call that returned without an error.
abbrev pub IsOk : {A : Type 0} → Result A → Type 0
IsOk (ok _) = Unit
IsOk (err _) = ⊥
IsOk panic = ⊥

-- The cases of a result, with their equations.
pub Result-cases :
    {A : Type 0} (r : Result A)
    → ((a : A) × (r ≡ ok a)) ⊎ (((e : Error) × (r ≡ err e)) ⊎ (r ≡ panic))
Result-cases (ok a) = inl (a, refl)
Result-cases (err e) = inr (inl (e, refl))
Result-cases panic = inr (inr refl)
