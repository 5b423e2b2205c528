-- ===== src/Tracer/Monitor.antt =====
-- A reference monitor, as a machine that src/trace/tracer.cpp is to follow: what it knows of each
-- thread, and what was decided.
use gravelbox.Base.{
  ℕ, ◌≡◌, ◌≢◌, refl, sym, ap, ◌∙◌, Bool, true, false, Bool-cases, inl, inr, Option, none, some,
  List, [], ◌∷◌, ◌==◌, if◌then◌else◌, ok, arith,
}
use gravelbox.Utils.{SyscallArgs}
use gravelbox.Tracer.Types.{ThreadStatus, userspace, kernelspace_allow, kernelspace_deny}
use gravelbox.Tracer.Loop.{Callbacks}

-- A thread, its call, and the verdict.
pub record Decision : Type 0 where
  pub thread : ℕ
  pub call : SyscallArgs
  pub verdict : Bool

-- Latest decision first. Each thread is unknown, or somewhere; there is no table here.
pub record Monitor : Type 0 where
  pub at : ℕ → Option ThreadStatus
  pub decisions : List Decision

abbrev pub moved : ℕ → Option ThreadStatus → Monitor → Monitor
moved p st m = record m { at = λ q. if p == q then st else m.at q }

abbrev pub ruled : Decision → Monitor → Monitor
ruled d m = record m { decisions = d ∷ m.decisions }

abbrev pub in_call : Bool → ThreadStatus
in_call v = if v then kernelspace_allow else kernelspace_deny

module _ {W : Type 0} (cb : Callbacks W) where
  -- The policy gave the verdict, in some state of its own, with the thread passed on first.
  abbrev pub Rules : Decision → Type 0
  Rules d = (w : W) × ((cb.syscall_callback d.call (cb.pid_callback d.thread w)).0 ≡ ok d.verdict)

  -- A thread appears in user space; enters a call that is decided; dies when a call of it was
  -- refused; comes back from a call; ends; or nothing changes.
  pub data Move (m : Monitor) : Monitor → Type 0 where
    appears : (p : ℕ) → m.at p ≡ none → Move m (moved p (some userspace) m)
    enters :
        (d : Decision)
        → m.at d.thread ≡ some userspace
        → Rules d
        → Move m (moved d.thread (some (in_call d.verdict)) (ruled d m))
    vanishes :
        (d : Decision)
        → m.at d.thread ≡ some userspace
        → Rules d
        → d.verdict ≡ false
        → Move m (ruled d m)
    returns : (p : ℕ) (v : Bool) → m.at p ≡ some (in_call v) → Move m (moved p (some userspace) m)
    ends : (p : ℕ) → Move m (moved p none m)
    stays : Move m m

  pub data Moves (m : Monitor) : Monitor → Type 0 where
    start : Moves m m
    then_move : {n o : Monitor} → Moves m n → Move n o → Moves m o

ne-in_call : (v : Bool) → some userspace ≢ some (in_call v)
ne-in_call true h = cc
ne-in_call false h = cc

in_call-injective : (u v : Bool) → some (in_call u) ≡ some (in_call v) → u ≡ v
in_call-injective true true h = refl
in_call-injective true false h = absurd (cc)
in_call-injective false true h = absurd (cc)
in_call-injective false false h = refl

abbrev pub nothing : Monitor
nothing = record { at = λ p. none; decisions = [] }

module _ {W : Type 0} (cb : Callbacks W) where
  -- The latest decision on a call of the thread is `v`, and the policy gave it.
  abbrev pub LastRuled : ℕ → Bool → List Decision → Type 0
  LastRuled p v [] = ⊥
  LastRuled p v (d ∷ ds) = if d.thread == p then (d.verdict ≡ v) × Rules cb d else LastRuled p v ds

  Move-LastRuled :
      {m n : Monitor}
      → Move cb m n
      → ((p : ℕ) (v : Bool) → m.at p ≡ some (in_call v) → LastRuled p v m.decisions)
      → (p : ℕ) (v : Bool) → n.at p ≡ some (in_call v)
      → LastRuled p v n.decisions
  Move-LastRuled (appears q new) before p v h = elim (Bool-cases (q == p)) [
    | inl y ↦ absurd (ne-in_call v (rw y at h))
    | inr n ↦ before p v (rw n at h)
  ]
  Move-LastRuled (enters d home r) before p v h = elim (Bool-cases (d.thread == p)) [
    | inl y ↦ rw y (in_call-injective d.verdict v (rw y at h), r)
    | inr n ↦ rw n (before p v (rw n at h))
  ]
  Move-LastRuled {m} (vanishes d home r not_in) before p v h = elim (Bool-cases (d.thread == p)) [
    | inl y ↦
        let same : d.thread ≡ p = ground arith in
        absurd (ne-in_call v (sym home ∙ ap m.at same ∙ h))
    | inr n ↦ rw n (before p v h)
  ]
  Move-LastRuled (returns q u there) before p v h = elim (Bool-cases (q == p)) [
    | inl y ↦ absurd (ne-in_call v (rw y at h))
    | inr n ↦ before p v (rw n at h)
  ]
  Move-LastRuled (ends q) before p v h = elim (Bool-cases (q == p)) [
    | inl y ↦ absurd (cc)
    | inr n ↦ before p v (rw n at h)
  ]
  Move-LastRuled stays before p v h = before p v h

  pub Moves-LastRuled :
      {m : Monitor}
      → Moves cb nothing m
      → (p : ℕ) (v : Bool) → m.at p ≡ some (in_call v)
      → LastRuled p v m.decisions
  Moves-LastRuled start p v h = absurd (ground arith)
  Moves-LastRuled (then_move a b) p v h = Move-LastRuled b (Moves-LastRuled a) p v h
