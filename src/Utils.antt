-- ===== src/Utils.antt =====
-- src/utils.h: the registers of a system call, the check of C return values.
pub mod Fd
pub mod FdOwner
pub mod Spawn
use gravelbox.Base.{ℕ, zero, suc, ◌≡◌, refl, ◌⊎◌, inl, inr, Bool, Outcome, ok, throw, system_error}

-- `std::array<uint64_t, 6>`.
pub record ArgArray : Type 0 where
  pub a0 : ℕ
  pub a1 : ℕ
  pub a2 : ℕ
  pub a3 : ℕ
  pub a4 : ℕ
  pub a5 : ℕ

pub record SyscallArgs : Type 0 where
  pub number : ℕ
  pub args : ArgArray
  pub int80 : Bool

-- `args[i]`; an index past the end is not defined in C++, and is 0 here.
unfoldable pub arg_at : ArgArray → ℕ → ℕ
arg_at a zero = a.a0
arg_at a (suc zero) = a.a1
arg_at a (suc (suc zero)) = a.a2
arg_at a (suc (suc (suc zero))) = a.a3
arg_at a (suc (suc (suc (suc zero)))) = a.a4
arg_at a (suc (suc (suc (suc (suc zero))))) = a.a5
arg_at a _ = 0

-- What a C call gives back: a value, or -1 and `errno`.
pub data Reply {ℓ} (A : Type ℓ) : Type ℓ where
  done : A → Reply A
  errno : ℕ → Reply A

unfoldable pub check {ℓ} : {A : Type ℓ} → Reply A → Outcome A
check (done a) = ok a
check (errno e) = throw (system_error e)

pub Reply-cases {ℓ} :
    {A : Type ℓ} (r : Reply A) → ((a : A) × (r ≡ done a)) ⊎ ((n : ℕ) × (r ≡ errno n))
Reply-cases (done a) = inl (a, refl)
Reply-cases (errno n) = inr (n, refl)
