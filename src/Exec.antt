-- ===== src/Exec.antt =====
-- The statements of a C++ function that works on an object: they change its state, and what they
-- changed before an exception stays changed.
pub mod Keeps
use gravelbox.Base.{◌≡◌, ◌≢◌, refl, Outcome, ok, throw, terminate, Exception}

abbrev pub Exec {ℓ} : Type ℓ → Type ℓ → Type ℓ
Exec S A = S → Outcome A × S

module _ {ℓ} {S A : Type ℓ} where
  unfoldable pub pure : A → Exec S A
  pure a s = (ok a, s)

  -- An outcome that does not touch the state.
  unfoldable pub lift : Outcome A → Exec S A
  lift r s = (r, s)

  unfoldable pub gets : (S → A) → Exec S A
  gets f s = (ok (f s), s)

module _ {ℓ} {S A B : Type ℓ} where
  unfoldable pub continue : Outcome A → (A → Exec S B) → Exec S B
  continue (ok a) f s = f a s
  continue (throw e) f s = (throw e, s)
  continue terminate f s = (terminate, s)

  -- The rest goes on from the state that the first part left.
  infixl 5 ◌>>=◌ ◌>>◌
  unfoldable pub ◌>>=◌ : Exec S A → (A → Exec S B) → Exec S B
  unfolding continue pure lift gets
  ◌>>=◌ first rest before = let (outcome, after) = first before in continue outcome rest after

  abbrev pub ◌>>◌ : Exec S A → Exec S B → Exec S B
  first >> rest = first >>= λ _. rest

module _ {ℓ} {S A : Type ℓ} where
  unfoldable pub handle : (Exception → Exec S A) → Outcome A → Exec S A
  handle h (ok a) s = (ok a, s)
  handle h (throw e) s = h e s
  handle h terminate s = (terminate, s)

  -- `try { body } catch (...)`: the handler has the exception, and the state at the throw.
  unfoldable pub try_catch : Exec S A → (Exception → Exec S A) → Exec S A
  unfolding handle
  try_catch m h s = let (r, s') = m s in handle h r s'

module _ {W A B : Type 0} where
  -- What was continued returns exactly where both parts do.
  continue-ok :
      (r : Outcome A) (f : A → Exec W B) (w : W) (b : B)
      → (continue r f w).0 ≡ ok b
      → (a : A) × (r ≡ ok a) × ((f a w).0 ≡ ok b)
  unfolding continue
  continue-ok (ok a) f w b h = (a, refl, h)
  continue-ok (throw e) f w b h = absurd (cc)
  continue-ok terminate f w b h = absurd (cc)

  pub bind-ok :
      (m : Exec W A) (f : A → Exec W B) (w : W) (b : B)
      → ((m >>= f) w).0 ≡ ok b
      → (a : A) × ((m w).0 ≡ ok a) × ((f a (m w).1).0 ≡ ok b)
  unfolding ◌>>=◌
  bind-ok m f w b h = continue-ok (m w).0 f (m w).1 b h

  continue-runs :
      (r : Outcome A) (f : A → Exec W B) (w : W) (b : B)
      → (continue r f w).0 ≡ ok b
      → (a : A) × (r ≡ ok a) × (continue r f w ≡ f a w)
  unfolding continue
  continue-runs (ok a) f w b h = (a, refl, refl)
  continue-runs (throw e) f w b h = absurd (cc)
  continue-runs terminate f w b h = absurd (cc)

  -- What returns ran its second part where the first one returned.
  pub bind-runs :
      (m : Exec W A) (f : A → Exec W B) (w : W) (b : B)
      → ((m >>= f) w).0 ≡ ok b
      → (a : A) × ((m w).0 ≡ ok a) × ((m >>= f) w ≡ f a (m w).1)
  unfolding ◌>>=◌
  bind-runs m f w b h = continue-runs (m w).0 f (m w).1 b h

module _ {S A : Type 0} (h : Exception → Exec S A) (a : A)
    (never : (e : Exception) (s : S) → (h e s).0 ≢ ok a) where
  handle-ok :
      (r : Outcome A) (s : S) → (handle h r s).0 ≡ ok a → (r ≡ ok a) × (handle h r s ≡ (r, s))
  unfolding handle
  handle-ok (ok b) s e = (e, refl)
  handle-ok (throw x) s e = absurd (never x s e)
  handle-ok terminate s e = absurd (cc)

  -- Where no handler gives `a`, what gives it is the body.
  pub try_catch-ok :
      (m : Exec S A) (s : S)
      → (try_catch m h s).0 ≡ ok a
      → ((m s).0 ≡ ok a) × (try_catch m h s ≡ m s)
  unfolding try_catch
  try_catch-ok m s e = handle-ok (m s).0 (m s).1 e
