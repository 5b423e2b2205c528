-- ===== src/Tracer/Errors.antt =====
-- Errors in the loop of src/trace/tracer.cpp.
use gravelbox.Base.{ℕ, ◌≡◌, ◌≢◌, none, ok, throw, system_error, out_of_range, arith}
use gravelbox.Utils.{SyscallArgs, done}
use gravelbox.NatMap
use gravelbox.NatMap.{NatMap, find-assign, find-erase}
use gravelbox.Tracer.Types.{
  esrch, userspace, kernelspace_allow, kernelspace_deny, WaitStatus, stopped, wait_status, Event,
  Tracer,
}
use gravelbox.Tracer.Loop.{
  Callbacks, on_event, on_status, on_stop, on_syscall_stop, on_entry, enter_verdict, report_denial,
}
use gravelbox.Tracer.System.{Phase, absent, in_user, in_kernel, dying, Delivers, Sys, Reach}
use gravelbox.Tracer.Mediation.{initial, MarkedAs, Reach-find}
use gravelbox.Tracer.Run.{Launch, start_trace, untraced}

module _ {W : Type 0} (cb : Callbacks W) where
  -- A stop that meets ESRCH does not end the loop, whichever request or callback it comes from.
  on_event-ne-esrch : (e : Event) (t : Tracer W) → (on_event cb e t).0 ≢ throw (system_error esrch)
  unfolding on_event on_status
  on_event-ne-esrch e t h = ground arith

  known-on_stop :
      (e : Event) (t : Tracer W) (sig p : ℕ)
      → NatMap.find p t.thread_status ≢ none
      → NatMap.find p (on_stop cb e sig t).1.thread_status ≢ none
  unfolding on_stop on_syscall_stop on_entry enter_verdict report_denial
  known-on_stop e t sig p k =
      let m = t.thread_status in
      ground (
        arith,
        find-assign e.pid p userspace m,
        find-assign e.pid p kernelspace_allow m,
        find-assign e.pid p kernelspace_deny m,
      )

  -- Whatever goes wrong at a stop, no thread is forgotten.
  known-on_event :
      (e : Event) (t : Tracer W) (sig p : ℕ)
      → wait_status e.wstatus ≡ stopped sig
      → NatMap.find p t.thread_status ≢ none
      → NatMap.find p (on_event cb e t).1.thread_status ≢ none
  unfolding on_event on_status
  known-on_event e t sig p stop k = ground (arith, known-on_stop e t sig p k)

module _ {W : Type 0} (cb : Callbacks W)
    (never : (args : SyscallArgs) (w : W)
      → (cb.syscall_callback args w).0 ≢ throw out_of_range) where
  on_entry_known : (e : Event) (t : Tracer W) → (on_entry cb e t).0 ≢ throw out_of_range
  unfolding on_entry enter_verdict
  on_entry_known e t h = grind (arith, never)

  on_stop_known :
      (e : Event) (t : Tracer W) (ph : Phase) (sig : ℕ)
      → Delivers ph (stopped sig)
      → MarkedAs ph (NatMap.find e.pid t.thread_status)
      → (on_stop cb e sig t).0 ≢ throw out_of_range
  unfolding on_stop on_syscall_stop report_denial
  on_stop_known e t absent sig d m h = ground arith
  on_stop_known e t in_user sig d m h = ground (arith, on_entry_known e t)
  on_stop_known e t in_kernel sig d m h = ground arith
  on_stop_known e t dying sig d m h = elim d [ ]

  on_status_known :
      (e : Event) (t : Tracer W) (ph : Phase) (ws : WaitStatus)
      → Delivers ph ws
      → MarkedAs ph (NatMap.find e.pid t.thread_status)
      → (on_status cb e ws t).0 ≢ throw out_of_range
  unfolding on_status
  on_status_known e t ph (stopped sig) d m h = ground (arith, on_stop_known e t ph sig d m)
  on_status_known e t ph _ d m h = ground arith

  -- From a child that was started, `thread_status.at` finds the thread of every stop that the kernel
  -- can report: if the callback throws no `out_of_range`, the loop throws none. Nor does it throw ESRCH,
  -- whichever request or callback that comes from.
  pub Reach-ne-out_of_range :
      (l : Launch) (child : ℕ) (w : W)
      → l.forked ≡ done child
      → (start_trace l (untraced w)).0 ≡ ok tt
      → {u : Sys W} → Reach cb (initial l child w) u
      → (e : Event) → Delivers (u.phase e.pid) (wait_status e.wstatus)
      → ((on_event cb e u.tracer).0 ≢ throw out_of_range)
        × ((on_event cb e u.tracer).0 ≢ throw (system_error esrch))
  Reach-ne-out_of_range l child w f s {u} r e d = (
    unfold on_event in
        on_status_known e u.tracer (u.phase e.pid) (wait_status e.wstatus) d
          (Reach-find l child w f s cb r e.pid),
    on_event-ne-esrch cb e u.tracer,
  )
