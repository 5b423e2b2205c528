-- ===== src/Tracer/Results.antt =====
-- How the system calls of the target end, in whole runs of the loop of src/trace/tracer.cpp.
use gravelbox.Base.{ℕ, ◌≡◌, Bool, true, false, none, some, List, ◌∷◌, inl, inr, ltb, ok, arith}
use gravelbox.Utils.{done, Reply-cases}
use gravelbox.NatMap
use gravelbox.NatMap.{find-assign}
use gravelbox.Tracer.Types.{
  sigtrap_syscall, eperm, minus, kernelspace_allow, kernelspace_deny, stopped, wait_status, Regs,
  Event, Tracer, Action, read_regs, wrote_regs, resumed_with,
}
use gravelbox.Tracer.Log.{resumes}
use gravelbox.Tracer.Loop.{Callbacks, on_event, on_status, on_stop, on_syscall_stop, report_denial}
use gravelbox.Tracer.Run.{Launch, start_trace, untraced}
use gravelbox.Tracer.System.{
  in_user, in_kernel, let_go, next_phase, Sys, after, Reach, here, next, round,
}
use gravelbox.Tracer.Mediation.{initial, Reach-find}
use gravelbox.Tracer.Monitor.{Moves, nothing, then_move, LastRuled, Moves-LastRuled}
use gravelbox.Tracer.Seen.{seen, decisions_of}
use gravelbox.Tracer.Refinement.{on_event-Move, start_trace-Moves}

-- What the loop does to a thread at the end of its call: nothing where the call was allowed; where it was
-- refused, the result is set to -EPERM and the other registers are kept. Then the thread is let go.
abbrev pub EndsAs : Bool → Event → List Action → List Action → Type 0
EndsAs true e before after_ = after_ ≡ resumed_with e.pid 0 ∷ before
EndsAs false e before after_ =
    (r : Regs) × (e.regs ≡ done r)
    × (after_
        ≡ resumed_with e.pid 0
          ∷ wrote_regs e.pid (record r { rax = minus eperm })
          ∷ read_regs e.pid
          ∷ before)

module _ {W : Type 0} (cb : Callbacks W) (e : Event) (t : Tracer W)
    (stop : wait_status e.wstatus ≡ stopped sigtrap_syscall)
    (handled : (on_event cb e t).0 ≡ ok none)
    (resumed : ltb (resumes e.pid t.log) (resumes e.pid (on_event cb e t).1.log) ≡ true) where
  allowed-EndsAs :
      NatMap.find e.pid t.thread_status ≡ some kernelspace_allow
      → EndsAs true e t.log (on_event cb e t).1.log
  unfolding on_event on_status on_stop on_syscall_stop resumes
  allowed-EndsAs k = ground arith

  denied-EndsAs :
      NatMap.find e.pid t.thread_status ≡ some kernelspace_deny
      → EndsAs false e t.log (on_event cb e t).1.log
  unfolding on_event on_status on_stop on_syscall_stop report_denial resumes
  denied-EndsAs k = elim (Reply-cases e.regs) [
    | inl (r, h) ↦ (r, h, ground arith)
    | inr (n, h) ↦ absurd (ground arith)
  ]

module _ {W : Type 0} (l : Launch) (child : ℕ) (w : W) (forked : l.forked ≡ done child)
    (started : (start_trace l (untraced w)).0 ≡ ok tt) (cb : Callbacks W) where
  Reach-Moves : {u : Sys W} → Reach cb (initial l child w) u → Moves cb nothing (seen u.tracer)
  unfolding after
  Reach-Moves here = start_trace-Moves cb l w
  Reach-Moves (next {u} r (round e d h q)) =
      rw q (then_move (Reach-Moves r) (on_event-Move cb e u.tracer))

  in_user-resumed :
      (e : Event) (u : Sys W)
      → u.phase e.pid ≡ in_kernel
      → wait_status e.wstatus ≡ stopped sigtrap_syscall
      → (after cb e u).phase e.pid ≡ in_user
      → ltb (resumes e.pid u.tracer.log) (resumes e.pid (on_event cb e u.tracer).1.log) ≡ true
  unfolding after next_phase let_go
  in_user-resumed e u inside stop gone = ground arith

  -- From a child that was started, whatever stops the kernel reported before: where a thread that is in a
  -- system call stops at the end of the call and is let go, its call was decided; if the last decision on
  -- a call of the thread was yes, its registers are not touched; if it was no, the result of the call is
  -- set to -EPERM and its other registers are kept. The policy gave this decision.
  pub Reach-EndsAs :
      {u : Sys W} (e : Event)
      → Reach cb (initial l child w) u
      → u.phase e.pid ≡ in_kernel
      → wait_status e.wstatus ≡ stopped sigtrap_syscall
      → (on_event cb e u.tracer).0 ≡ ok none
      → (after cb e u).phase e.pid ≡ in_user
      → (v : Bool) × LastRuled cb e.pid v (decisions_of u.tracer.log)
        × EndsAs v e u.tracer.log (after cb e u).tracer.log
  unfolding after
  Reach-EndsAs {u} e r inside stop handled gone =
      let resumed = in_user-resumed e u inside stop gone in
      let ruled = Moves-LastRuled cb (Reach-Moves r) e.pid in
      let marked = rw inside at (Reach-find l child w forked started cb r e.pid) in
      elim marked [
        | inl k ↦ (true, ruled true k, allowed-EndsAs cb e u.tracer stop handled resumed k)
        | inr k ↦ (false, ruled false k, denied-EndsAs cb e u.tracer stop handled resumed k)
      ]
