-- ===== src/Tracer/LetThrough.antt =====
-- Which calls are let through in a whole run of src/trace/tracer.cpp, with any callbacks.
use gravelbox.Base.{ℕ, ◌≡◌, Bool, true, false, Option, List, [], ◌∷◌, inl, inr, ok, Bool-cases, All}
use gravelbox.Utils.{SyscallArgs, Reply, done, errno}
use gravelbox.Tracer.Types.{ThreadStatus, SyscallInfo, syscall_args, Event}
use gravelbox.Tracer.Loop.{Callbacks, on_event}
use gravelbox.Tracer.Run.{Launch, start_trace, untraced}
use gravelbox.Tracer.System.{Phase, absent, in_user, in_kernel, dying, Sys, after, here}
use gravelbox.Tracer.Mediation.{initial, MarkedAs, Reach-find}
use gravelbox.Tracer.Granted.{Safe, Safe-on_event}
use gravelbox.Tracer.Entries.{
  Fits, AllFit, goes_on, goes_on-ok, rounds, enters_call, StartsAs, Mediates, after-AllFit,
  round-Mediates,
}

MarkedAs-Fits : (ph : Phase) (st : Option ThreadStatus) → MarkedAs ph st → Fits ph st
MarkedAs-Fits absent st h = h
MarkedAs-Fits in_user st h = inr h
MarkedAs-Fits in_kernel st h = h
MarkedAs-Fits dying st h = tt

module _ {W : Type 0} (cb : Callbacks W) where
  rounds-Mediates :
      (events : List (Reply Event)) (s : Sys W) → AllFit s → All (Mediates cb) (rounds cb events s)
  unfolding rounds
  rounds-Mediates [] s fit = tt
  rounds-Mediates (errno n ∷ rest) s fit = tt
  rounds-Mediates (done e ∷ rest) s fit = elim (Bool-cases (goes_on (on_event cb e s.tracer).0)) [
    | inr n ↦ rw n tt
    | inl y ↦
        let h = goes_on-ok (on_event cb e s.tracer).0 y in
        rw y (
          round-Mediates cb e s h fit,
          rounds-Mediates rest (after cb e s) (after-AllFit cb e s h fit),
        )
  ]

-- Where a call is let through, it has a property.
abbrev pub Grants : (ℕ → SyscallArgs → Type 0) → Bool → ℕ → SyscallArgs → Type 0
Grants P true p c = P p c
Grants P false p c = Unit

module _ {W : Type 0} (cb : Callbacks W) (P : ℕ → SyscallArgs → Type 0) where
  -- If the thread is let go into a call in this round: the call is the one that the kernel reports, and
  -- it has the property, or it was cancelled.
  abbrev pub LetThrough : Sys W × Event → Type 0
  LetThrough (s, e) = elim (enters_call cb s e) [
    | true ↦
        (i : SyscallInfo) × (v : Bool) × (e.info ≡ done i)
        × Grants P v e.pid (syscall_args i)
        × StartsAs cb v e i s.tracer.log (on_event cb e s.tracer).1.log
    | false ↦ Unit
  ]

  module _ (I : W → Type 0) (keeps_pid : (p : ℕ) (w : W) → I w → I (cb.pid_callback p w))
      (keeps : (c : SyscallArgs) (w : W) → I w → I (cb.syscall_callback c w).1)
      (granted : (p : ℕ) (c : SyscallArgs) (w : W)
        → I w
        → (cb.syscall_callback c (cb.pid_callback p w)).0 ≡ ok true
        → P p c) where
    grants :
        (v : Bool) (p : ℕ) (c : SyscallArgs) (w : W)
        → I w
        → (cb.syscall_callback c (cb.pid_callback p w)).0 ≡ ok v
        → Grants P v p c
    grants true p c w safe h = granted p c w safe h
    grants false p c w safe h = tt

    round-LetThrough :
        (s : Sys W) (e : Event) → I s.tracer.world → Mediates cb (s, e) → LetThrough (s, e)
    round-LetThrough s e safe h = elim (Bool-cases (enters_call cb s e)) [
      | inr n ↦ rw (LetThrough, n) tt
      | inl y ↦
          rw (LetThrough, y)
            (let (i, v, told, answer, starts) = rw (Mediates, y) at h in
              (i, v, told, grants v e.pid (syscall_args i) s.tracer.world safe answer, starts))
    ]

    pub rounds-LetThrough :
        (events : List (Reply Event)) (s : Sys W)
        → AllFit s
        → Safe cb P I keeps_pid keeps granted s.tracer
        → All LetThrough (rounds cb events s)
    unfolding rounds
    rounds-LetThrough [] s fit safe = tt
    rounds-LetThrough (errno n ∷ rest) s fit safe = tt
    rounds-LetThrough (done e ∷ rest) s fit safe =
        elim (Bool-cases (goes_on (on_event cb e s.tracer).0)) [
          | inr n ↦ rw n tt
          | inl y ↦
              let h = goes_on-ok (on_event cb e s.tracer).0 y in
              rw y (
                round-LetThrough s e safe.world (round-Mediates cb e s h fit),
                rounds-LetThrough rest (after cb e s) (after-AllFit cb e s h fit)
                    (Safe-on_event cb P I keeps_pid keeps granted e s.tracer safe),
              )
        ]

module _ {W : Type 0} (l : Launch) (child : ℕ) (w : W) (forked : l.forked ≡ done child)
    (started : (start_trace l (untraced w)).0 ≡ ok tt) (cb : Callbacks W) where
  pub initial-AllFit : AllFit (initial l child w)
  initial-AllFit p =
      MarkedAs-Fits ((initial l child w).phase p) _ (Reach-find l child w forked started cb here p)

  -- Complete mediation. From a child that was started, whatever `waitpid` and `ptrace` answer, in every
  -- round that the loop goes on from: where the kernel lets a thread go from user space into a system
  -- call, the policy was asked in this round about the call that the kernel reports, with the thread
  -- passed on; if its answer was yes, nothing else was done to the thread; if it was no, the thread's call
  -- was cancelled by the number -1, its other registers kept, before it was let go.
  pub run-Mediates : All (Mediates cb) (rounds cb l.events (initial l child w))
  run-Mediates = rounds-Mediates cb l.events (initial l child w) initial-AllFit
