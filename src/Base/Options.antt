-- ===== src/Base/Options.antt =====
-- `do` blocks over `Option`; the name of the bind clashes with that of `Outcome`, so a file takes one.
use mathlib.Core.Option.{Option, none, some}

infixl 5 ◌>>=◌
abbrev pub ◌>>=◌ {ℓ κ} : {A : Type ℓ} {B : Type κ} → Option A → (A → Option B) → Option B
none >>= f = none
some a >>= f = f a
