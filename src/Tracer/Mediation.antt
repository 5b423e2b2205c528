-- ===== src/Tracer/Mediation.antt =====
-- Whole runs of the loop of src/trace/tracer.cpp, from a child that was started.
use gravelbox.Base.{
  ℕ, ◌≡◌, refl, Option, none, some, ◌∷◌, [], ◌⊎◌, inl, inr, ◌==◌, if◌then◌else◌, ok, Bool-cases,
  arith,
}
use gravelbox.Utils.{done}
use gravelbox.NatMap
use gravelbox.Tracer.Types.{
  ThreadStatus, userspace, kernelspace_allow, kernelspace_deny, set_options, resumed_with,
}
use gravelbox.Tracer.Log.{Standing, standing, may_resume, Mediated}
use gravelbox.Tracer.Loop.{Callbacks}
use gravelbox.Tracer.Run.{Launch, trace_options, start_trace, untraced}
use gravelbox.Tracer.System.{Phase, absent, in_user, in_kernel, dying, Sys, Reach}
use gravelbox.Tracer.Soundness.{Agrees, IsSound, Reach-IsSound}

-- The mark that a thread of each phase has; a dying thread may have any.
abbrev pub MarkedAs : Phase → Option ThreadStatus → Type 0
MarkedAs absent st = st ≡ none
MarkedAs in_user st = st ≡ some userspace
MarkedAs in_kernel st = (st ≡ some kernelspace_allow) ⊎ (st ≡ some kernelspace_deny)
MarkedAs dying st = Unit

marked : (ph : Phase) (st : Option ThreadStatus) (sd : Standing) → Agrees ph st sd → MarkedAs ph st
marked absent st sd a = a.0
marked in_user st sd a = a.0
marked in_kernel st sd a = a.0
marked dying st sd a = tt

-- The system when the trace has begun: the child runs, and there is no other thread.
abbrev pub initial : {W : Type 0} → Launch → ℕ → W → Sys W
initial l child w = record {
  tracer = (start_trace l (untraced w)).1;
  phase = λ q. if child == q then in_user else absent;
}

module _ {W : Type 0} (l : Launch) (child : ℕ) (w : W) (forked : l.forked ≡ done child)
    (started : (start_trace l (untraced w)).0 ≡ ok tt) where
  start_trace_ok : (start_trace l (untraced w)).1 ≡ record {
    thread_status = (child, userspace) ∷ [];
    world = w;
    log = resumed_with child 0 ∷ set_options child trace_options ∷ [];
  }
  unfolding start_trace NatMap.assign
  start_trace_ok = ground arith

  initial-IsSound : IsSound (initial l child w)
  unfolding NatMap.find standing may_resume
  initial-IsSound = record {
    agrees = λ p.
        rw start_trace_ok (elim (Bool-cases (child == p)) [
          | inl y ↦ rw y (refl, refl)
          | inr n ↦ rw n (refl, refl)
        ]);
    mediated = rw start_trace_ok (refl, tt);
  }

  -- From a child that was started, whatever stops the kernel reports to the loop: no thread was ever let
  -- go in a system call that had not been decided, or that was refused and not cancelled.
  Reach-Mediated :
      (cb : Callbacks W) {u : Sys W} → Reach cb (initial l child w) u → Mediated u.tracer.log
  Reach-Mediated cb r = (Reach-IsSound cb initial-IsSound r).mediated

  -- From a child that was started: the loop knows no absent thread; a thread in user space is marked
  -- so, and one in the kernel is marked as allowed or denied.
  pub Reach-find :
      (cb : Callbacks W) {u : Sys W}
      → Reach cb (initial l child w) u
      → (p : ℕ) → MarkedAs (u.phase p) (NatMap.find p u.tracer.thread_status)
  Reach-find cb {u} r p = marked (u.phase p) _ _ ((Reach-IsSound cb initial-IsSound r).agrees p)
