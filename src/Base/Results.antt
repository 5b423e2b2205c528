-- ===== src/Base/Results.antt =====
-- How a C++ call ends: with a value, by an exception, or by ending the whole process
-- (`std::terminate`, a failed `assert`).
use Prim.Native.Nat.{ℕ}
use mathlib.Core.Path.{◌≡◌, refl}
use mathlib.Core.List.{List}
use mathlib.Core.Logic.{◌⊎◌, inl, inr}

-- What a `throw` carries. `std::ios_base::failure` is a `std::system_error` too, with a code that
-- is no `errno`.
pub data Exception : Type 0 where
  system_error : ℕ → Exception
  ios_failure : Exception
  config_exception : List ℕ → List ℕ → List ℕ → Exception
  pinentry_exception : List ℕ → Exception
  child_exit_exception : ℕ → Exception
  out_of_range : Exception
  json_exception : List ℕ → Exception
  regex_error : List ℕ → Exception

pub data Outcome {ℓ} (A : Type ℓ) : Type ℓ where
  ok : A → Outcome A
  throw : Exception → Outcome A
  terminate : Outcome A

-- What follows a call is skipped where the call throws or ends the process.
module _ {ℓ₁ ℓ₂} {From : Type ℓ₁} {To : Type ℓ₂} where
  infixl 5 ◌>>=◌
  abbrev pub ◌>>=◌ : Outcome From → (From → Outcome To) → Outcome To
  terminate >>= rest = terminate
  throw x >>= rest = throw x
  ok v >>= rest = rest v

  -- Where the whole returns, the first part did.
  pub >>=-returned :
      (first : Outcome From) (rest : From → Outcome To) {answer : To}
      → first >>= rest ≡ ok answer
      → (v : From) × (first ≡ ok v)
  >>=-returned terminate rest h = cc
  >>=-returned (throw x) rest h = cc
  >>=-returned (ok v) rest h = (v, refl)

module _ {ℓ} {To : Type ℓ} where
  infixl 5 ◌>>◌
  abbrev pub ◌>>◌ : Outcome (Unit {0}) → Outcome To → Outcome To
  ok _ >> rest = rest
  throw x >> rest = throw x
  terminate >> rest = terminate

pub Outcome-cases {ℓ} :
    {A : Type ℓ} (r : Outcome A)
    → ((a : A) × (r ≡ ok a)) ⊎ ((x : Exception) × (r ≡ throw x)) ⊎ (r ≡ terminate)
Outcome-cases (ok a) = inl (a, refl)
Outcome-cases (throw x) = inr (inl (x, refl))
Outcome-cases terminate = inr (inr refl)
