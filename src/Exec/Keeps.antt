-- ===== src/Exec/Keeps.antt =====
-- What the statements of a C++ function keep: an invariant of the state that they work on.
use gravelbox.Base.{
  ◌≡◌, refl, Bool, true, false, if◌then◌else◌, Exception, Outcome, ok, throw, terminate,
}
use gravelbox.Exec.{Exec, pure, lift, continue, handle, try_catch, ◌>>=◌}

module _ {S : Type 0} (Q : Type 0) (P : S → Type 0) where
  -- Where `Q` is empty, also a process that ends leaves the invariant behind.
  pub data Ends {A : Type 0} (r : Outcome A) (s : S) : Type 0 where
    ended : r ≡ terminate → Q → Ends r s
    kept : P s → Ends r s

  pub record Keeps {A : Type 0} (m : Exec S A) : Type 0 where
    pub at : (s : S) → P s → Ends (m s).0 (m s).1

module _ {S : Type 0} {Q : Type 0} {P : S → Type 0} where
  pub Keeps-still : {A : Type 0} (m : Exec S A) → ((s : S) → (m s).1 ≡ s) → Keeps Q P m
  Keeps-still m same = record { at = λ s h. kept (rw (same s) h) }

  pub Keeps-pure : {A : Type 0} (a : A) → Keeps Q P (pure a)
  unfolding pure
  Keeps-pure a = record { at = λ s h. kept h }

  pub Keeps-lift : {A : Type 0} (r : Outcome A) → Keeps Q P (lift r)
  unfolding lift
  Keeps-lift r = record { at = λ s h. kept h }

  Ends-continue :
      {A B : Type 0} (r : Outcome A) (s : S) (f : A → Exec S B)
      → Ends Q P r s
      → ((a : A) → Keeps Q P (f a))
      → Ends Q P (continue r f s).0 (continue r f s).1
  unfolding continue
  Ends-continue (ok a) s f (ended e q) k = absurd (cc)
  Ends-continue (ok a) s f (kept h) k = (k a).at s h
  Ends-continue (throw x) s f (ended e q) k = absurd (cc)
  Ends-continue (throw x) s f (kept h) k = kept h
  Ends-continue terminate s f (ended e q) k = ended refl q
  Ends-continue terminate s f (kept h) k = kept h

  pub Keeps-bind :
      {A B : Type 0} {m : Exec S A} {f : A → Exec S B}
      → Keeps Q P m
      → ((a : A) → Keeps Q P (f a))
      → Keeps Q P (m >>= f)
  unfolding ◌>>=◌
  Keeps-bind {m} {f} km kf = record { at = λ s h. Ends-continue (m s).0 (m s).1 f (km.at s h) kf }

  pub Keeps-if :
      {A : Type 0} (b : Bool) {m n : Exec S A}
      → Keeps Q P m
      → Keeps Q P n
      → Keeps Q P (if b then m else n)
  Keeps-if true km kn = km
  Keeps-if false km kn = kn

  Ends-handle :
      {A : Type 0} (r : Outcome A) (s : S) (h : Exception → Exec S A)
      → Ends Q P r s
      → ((x : Exception) → Keeps Q P (h x))
      → Ends Q P (handle h r s).0 (handle h r s).1
  unfolding handle
  Ends-handle (ok a) s h e k = e
  Ends-handle (throw x) s h (ended e q) k = absurd (cc)
  Ends-handle (throw x) s h (kept p) k = (k x).at s p
  Ends-handle terminate s h e k = e

  pub Keeps-try_catch :
      {A : Type 0} {m : Exec S A} {h : Exception → Exec S A}
      → Keeps Q P m
      → ((x : Exception) → Keeps Q P (h x))
      → Keeps Q P (try_catch m h)
  unfolding try_catch
  Keeps-try_catch {m} {h} km kh = record {
    at = λ s p. Ends-handle (m s).0 (m s).1 h (km.at s p) kh;
  }
