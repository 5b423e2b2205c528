-- ===== src/Base/Only.antt =====
-- Which exceptions an outcome can be.
use gravelbox.Base.Results.{
  Exception, config_exception, json_exception, Outcome, ok, throw, ◌>>=◌, ◌>>◌,
}

abbrev pub IsConfigException : Exception → Type 0
IsConfigException (config_exception _ _ _) = Unit
IsConfigException _ = ⊥

abbrev pub IsJsonException : Exception → Type 0
IsJsonException (json_exception _) = Unit
IsJsonException _ = ⊥

-- The outcome returns, or throws an exception with a property; it does not end the process.
pub data Only {ℓ} {A : Type ℓ} (P : Exception → Type 0) : Outcome A → Type ℓ where
  returned : (a : A) → Only P (ok a)
  thrown : (e : Exception) → P e → Only P (throw e)

pub Only-bind {ℓ} :
    {A B : Type ℓ} {P : Exception → Type 0} {m : Outcome A} {f : A → Outcome B}
    → Only P m
    → ((a : A) → Only P (f a))
    → Only P (m >>= f)
Only-bind (returned a) h = h a
Only-bind (thrown e p) h = thrown e p

pub Only-then :
    {B : Type 0} {P : Exception → Type 0} {m : Outcome (Unit {0})} {n : Outcome B}
    → Only P m
    → Only P n
    → Only P (m >> n)
Only-then (returned a) h = h
Only-then (thrown e p) h = thrown e p

pub Only-weaken {ℓ} :
    {A : Type ℓ} {P Q : Exception → Type 0} {m : Outcome A}
    → ((e : Exception) → P e → Q e)
    → Only P m
    → Only Q m
Only-weaken w (returned a) = returned a
Only-weaken w (thrown e p) = thrown e (w e p)
