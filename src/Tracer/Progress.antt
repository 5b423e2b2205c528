-- ===== src/Tracer/Progress.antt =====
-- That no thread is left at a stop by the loop of src/trace/tracer.cpp.
use gravelbox.Base.{
  ℕ, ◌≡◌, refl, Bool, true, false, none, some, ◌∷◌, ◌⊎◌, inl, inr, ◌==◌, ltb, ok, Bool-cases,
  ==_iff, arith,
}
use gravelbox.Utils.{done}
use gravelbox.NatMap
use gravelbox.Tracer.Types.{
  sigtrap_syscall, info_entry, audit_arch_i386, audit_arch_x86_64, userspace, kernelspace_allow,
  kernelspace_deny, stopped, wait_status, Regs, SyscallInfo, Event, Tracer, syscall_args,
  resumed_with,
}
use gravelbox.Tracer.Log.{resumes}
use gravelbox.Tracer.Own.{on_stop-other, on_stop-new, resumes-on_stop}
use gravelbox.Tracer.Loop.{
  Callbacks, on_event, on_status, on_stop, on_syscall_stop, on_entry, enter_verdict, report_denial,
}
use gravelbox.Tracer.Run.{Launch, start_trace, untraced}
use gravelbox.Tracer.System.{
  Phase, absent, in_user, in_kernel, dying, Delivers, let_go, next_phase, Sys, after, round, Reach,
  next,
}
use gravelbox.Tracer.Mediation.{initial, MarkedAs, Reach-find}

-- What the kernel is asked about the registers of the thread, and to let it go, succeeds.
abbrev pub Obeys : Event → Type 0
Obeys e = (r : Regs) × (e.regs ≡ done r) × (e.set ≡ done tt) × (e.resumed ≡ done tt)

-- The kernel tells the call that is entered, and the callback answers.
abbrev pub Answers : {W : Type 0} → Callbacks W → Event → W → Type 0
Answers {W} cb e before =
    (i : SyscallInfo) × (v : Bool) × (w : W) × (e.info ≡ done i)
    × (i.op ≡ info_entry)
    × ((i.arch ≡ audit_arch_i386) ⊎ (i.arch ≡ audit_arch_x86_64))
    × (cb.syscall_callback (syscall_args i) (cb.pid_callback e.pid before) ≡ (ok v, w))

module _ {W : Type 0} (cb : Callbacks W) (e : Event) (t : Tracer W) (obeys : Obeys e) where
  entry-ok :
      NatMap.find e.pid t.thread_status ≡ some userspace
      → Answers cb e t.world
      → (on_stop cb e sigtrap_syscall t).0 ≡ ok tt
  unfolding on_stop on_syscall_stop on_entry enter_verdict
  entry-ok k (i, true, w, info, op, arch, answer) = ground (arith, obeys)
  entry-ok k (i, false, w, info, op, arch, answer) = ground (arith, obeys)

  exit-ok :
      (NatMap.find e.pid t.thread_status ≡ some kernelspace_allow)
        ⊎ (NatMap.find e.pid t.thread_status ≡ some kernelspace_deny)
      → (on_stop cb e sigtrap_syscall t).0 ≡ ok tt
  unfolding on_stop on_syscall_stop report_denial
  exit-ok k = ground (arith, obeys)

  -- A stop that the kernel can report is handled.
  on_stop-ok :
      (ph : Phase) (sig : ℕ)
      → Delivers ph (stopped sig)
      → MarkedAs ph (NatMap.find e.pid t.thread_status)
      → (ph ≡ in_user → sig ≡ sigtrap_syscall → Answers cb e t.world)
      → (on_stop cb e sig t).0 ≡ ok tt
  on_stop-ok absent sig d k a = rw d (rw (on_stop-new cb e t k) refl)
  on_stop-ok in_user sig d k a = elim (Bool-cases (sig == sigtrap_syscall)) [
    | inl y ↦ let p = (==_iff sig sigtrap_syscall).0 y in rw p (entry-ok k (a refl p))
    | inr n ↦ rw (on_stop-other cb e t sig k (ground arith)) refl
  ]
  on_stop-ok in_kernel sig d k a = elim (Bool-cases (sig == sigtrap_syscall)) [
    | inl y ↦ let p = (==_iff sig sigtrap_syscall).0 y in rw p (exit-ok k)
    | inr n ↦ elim k [
      | inl m ↦ rw (on_stop-other cb e t sig m (ground arith)) refl
      | inr m ↦ rw (on_stop-other cb e t sig m (ground arith)) refl
    ]
  ]
  on_stop-ok dying sig d k a = elim d [ ]

  -- What is handled is let go.
  on_status-resumed :
      (sig : ℕ)
      → (on_stop cb e sig t).0 ≡ ok tt
      → on_status cb e (stopped sig) t ≡ (
        ok none,
        record (on_stop cb e sig t).1 { log = resumed_with e.pid 0 ∷ (on_stop cb e sig t).1.log },
      )
  unfolding on_status
  on_status-resumed sig h = ground (arith, obeys)

  -- So the thread is let go, as ptrace(2) lets it go on.
  on_event-let_go :
      (ph : Phase) (sig : ℕ)
      → wait_status e.wstatus ≡ stopped sig
      → (on_stop cb e sig t).0 ≡ ok tt
      → ((on_event cb e t).0 ≡ ok none)
        × (next_phase ph
              (stopped sig)
              (ltb (resumes e.pid t.log) (resumes e.pid (on_event cb e t).1.log))
            ≡ let_go ph sig)
  unfolding on_event next_phase resumes
  on_event-let_go ph sig stop h =
      rw (stop, on_status-resumed sig h) (refl, ground (arith, resumes-on_stop cb e t sig))

module _ {W : Type 0} (l : Launch) (child : ℕ) (w : W) (forked : l.forked ≡ done child)
    (started : (start_trace l (untraced w)).0 ≡ ok tt) (cb : Callbacks W) where
  -- From a child that was started, whatever stops the kernel reported before: a stop that it can report
  -- next, where the requests about the thread succeed and, at the entry of a call, the kernel tells the
  -- call and the callback answers, is handled. The loop goes on, and the thread is let go, into the call,
  -- out of it, or on where it was.
  pub Reach-let_go :
      {u : Sys W} (e : Event) (sig : ℕ)
      → Reach cb (initial l child w) u
      → wait_status e.wstatus ≡ stopped sig
      → Delivers (u.phase e.pid) (stopped sig)
      → Obeys e
      → (u.phase e.pid ≡ in_user → sig ≡ sigtrap_syscall → Answers cb e u.tracer.world)
      → Reach cb (initial l child w) (after cb e u)
        × ((after cb e u).phase e.pid ≡ let_go (u.phase e.pid) sig)
  unfolding after
  Reach-let_go {u} e sig r stop d obeys answers =
      let known = Reach-find l child w forked started cb r e.pid in
      let ok_ = on_stop-ok cb e u.tracer obeys (u.phase e.pid) sig d known answers in
      let own : e.pid == e.pid ≡ true = (==_iff e.pid e.pid).1 refl in
      let (handled, phase) = on_event-let_go cb e u.tracer obeys (u.phase e.pid) sig stop ok_ in
      (next r (round e (rw stop d) handled refl), rw own (rw stop phase))
