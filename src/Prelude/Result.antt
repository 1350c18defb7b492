-- ===== src/Prelude/Result.antt =====
-- A call that may raise. The exceptions that the program tells apart are FastAPI's HTTPException
-- and all others.
use mathlib.Core.Path.{◌≡◌, refl}
use mathlib.Core.Logic.{◌⊎◌, inl, inr}
use Prim.Native.Nat.{ℕ}
use Prim.Native.String.{String}

pub data Exception : Type 0 where
  http_exception : ℕ → String → Exception
  exception : String → Exception

pub data Result {ℓ} (A : Type ℓ) : Type ℓ where
  ok : A → Result A
  raised : Exception → Result A

infixl 5 ◌>>=◌
abbrev pub ◌>>=◌ {ℓ κ} : {A : Type ℓ} {B : Type κ} → Result A → (A → Result B) → Result B
ok a >>= f = f a
raised e >>= f = raised e

pub Result-cases {ℓ} :
    {A : Type ℓ} (r : Result A) → ((a : A) × (r ≡ ok a)) ⊎ ((e : Exception) × (r ≡ raised e))
Result-cases (ok a) = inl (a, refl)
Result-cases (raised e) = inr (e, refl)

-- Where the call raised, the state behind it is the one before it.
abbrev pub Rolls : {A S : Type 0} → S → Result A × S → Type 0
Rolls before (ok a, after) = Unit
Rolls before (raised e, after) = after ≡ before
