-- ===== src/Utils/Fd.antt =====
-- `Utils::Fd` of src/utils.h: who closes a file descriptor.
use gravelbox.Base.{
  ℕ, Bool, List, [], ◌∷◌, if◌then◌else◌, Option, none, some, Outcome, ok, throw, terminate,
}
use gravelbox.Utils.{Reply, check}
use gravelbox.Exec.{Exec, pure, ◌>>=◌, ◌>>◌}

-- `fd_`, with `none` for -1.
pub record Fd : Type 0 where
  pub fd : Option ℕ

-- Fd(int fd), for a descriptor that a system call gave.
abbrev pub new : ℕ → Fd
new n = record { fd = some n }

abbrev pub invalid : Fd
invalid = record { fd = none }

-- Fd(Fd &&fd): the new object, and what is left of the old one.
unfoldable pub move : Fd → Fd × Fd
move f = (record { fd = f.fd }, invalid)

-- operator=(Fd &&fd), on `*this` and `fd`; the first argument says whether they are one object.
unfoldable pub assign : Bool → Fd → Fd → Fd × Fd
assign same this source = if same then (this, source) else (record this { fd = source.fd }, invalid)

-- release(): what it gives, and what is left.
unfoldable pub release : Fd → Option ℕ × Fd
release f = (f.fd, invalid)

-- The descriptors that were closed, latest first.
pub record Files : Type 0 where
  pub closed : List ℕ

-- `::close`, with what the system answers for each descriptor.
abbrev pub CloseReply : Type 0
CloseReply = ℕ → Reply (Unit {0})

module _ (close_reply : CloseReply) where
  -- check(::close(fd))
  unfoldable pub close : ℕ → Exec Files (Unit {0})
  unfolding check
  close n s = (check (close_reply n), record s { closed = n ∷ s.closed })

  -- A destructor does not let an exception out.
  unfoldable pub no_throw : {S : Type 0} → Outcome (Unit {0}) × S → Outcome (Unit {0}) × S
  no_throw (ok a, s) = (ok a, s)
  no_throw (throw e, s) = (terminate, s)
  no_throw (terminate, s) = (terminate, s)

  -- ~Fd()
  unfoldable pub destroy : Fd → Exec Files (Unit {0})
  unfolding close no_throw pure
  destroy f s = elim f.fd [ none ↦ pure tt s | some n ↦ no_throw (close n s) ]

  -- The objects of a scope, the one that was made last first.
  unfoldable pub destroy_all : List Fd → Exec Files (Unit {0})
  unfolding destroy ◌>>=◌ pure
  destroy_all [] = pure tt
  destroy_all (f ∷ fs) = destroy f >> destroy_all fs

  unfoldable pub keep_outcome : {A : Type 0} → Outcome A → Outcome (Unit {0}) → Outcome A
  keep_outcome r (ok _) = r
  keep_outcome r _ = terminate

  -- On leaving a scope with the objects `fs`: they are destroyed, and the outcome stays what it was.
  unfoldable pub after_scope : {A : Type 0} → List Fd → Outcome A → Exec Files A
  unfolding destroy_all keep_outcome
  after_scope fs r s = let (left, s') = destroy_all fs s in (keep_outcome r left, s')

  -- A statement that may throw, in a scope with the objects `fs` that goes on after it.
  unfoldable pub unwinding : {A : Type 0} → List Fd → Outcome A → Exec Files A
  unfolding after_scope
  unwinding fs (ok a) s = (ok a, s)
  unwinding fs (throw e) s = after_scope fs (throw e) s
  unwinding fs terminate s = (terminate, s)
