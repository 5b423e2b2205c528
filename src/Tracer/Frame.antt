-- ===== src/Tracer/Frame.antt =====
-- An event of one thread, handled by the loop of src/trace/tracer.cpp, leaves the others alone.
use gravelbox.Base.{ℕ, ◌≡◌, ◌≢◌, Bool, Option, arith}
use gravelbox.NatMap
use gravelbox.NatMap.{find-assign, find-erase}
use gravelbox.Tracer.Types.{
  ThreadStatus, userspace, kernelspace_allow, kernelspace_deny, WaitStatus, stopped, Event, Tracer,
}
use gravelbox.Tracer.Log.{Standing, standing}
use gravelbox.Tracer.Loop.{
  Callbacks, on_status, on_stop, on_syscall_stop, on_entry, enter_verdict, report_denial,
}

-- What the loop knows and has done of one thread.
pub record View (W : Type 0) (t : Tracer W) (q : ℕ) (st : Option ThreadStatus) (sd : Standing)
    : Type 0 where
  pub known : NatMap.find q t.thread_status ≡ st
  pub stands : standing q t.log ≡ sd

-- Another thread's event leaves the view of `q` as it was.
module _ {W : Type 0} (cb : Callbacks W) (e : Event) (q : ℕ) (apart : e.pid ≢ q)
    {st : Option ThreadStatus} {sd : Standing} where
  pub View-enter_verdict :
      (t : Tracer W) (v : Bool) → View W t q st sd → View W (enter_verdict cb e v t).1 q st sd
  unfolding enter_verdict standing
  View-enter_verdict t v h = ground (
    arith,
    find-assign e.pid q kernelspace_allow t.thread_status,
    find-assign e.pid q kernelspace_deny t.thread_status,
  )

  pub View-on_entry : (t : Tracer W) → View W t q st sd → View W (on_entry cb e t).1 q st sd
  unfolding on_entry standing
  View-on_entry t h = grind (arith, View-enter_verdict)

  pub View-report_denial :
      (t : Tracer W) → View W t q st sd → View W (report_denial cb e t).1 q st sd
  unfolding report_denial standing
  View-report_denial t h = ground (arith)

  pub View-on_syscall_stop :
      (t : Tracer W) (s : ThreadStatus)
      → View W t q st sd
      → View W (on_syscall_stop cb e s t).1 q st sd
  unfolding on_syscall_stop
  View-on_syscall_stop t userspace h = View-on_entry t h
  View-on_syscall_stop t kernelspace_deny h = grind (arith, View-report_denial, find-assign)
  View-on_syscall_stop t kernelspace_allow h =
      ground (arith, find-assign e.pid q userspace t.thread_status)

  pub View-on_stop :
      (t : Tracer W) (sig : ℕ) → View W t q st sd → View W (on_stop cb e sig t).1 q st sd
  unfolding on_stop
  View-on_stop t sig h = grind (arith, View-on_syscall_stop, find-assign)

  pub View-on_status :
      (t : Tracer W) (ws : WaitStatus) → View W t q st sd → View W (on_status cb e ws t).1 q st sd
  unfolding on_status standing
  View-on_status t (stopped sig) h = grind (arith, View-on_stop)
  View-on_status t _ h = ground (arith, find-erase e.pid q t.thread_status)
