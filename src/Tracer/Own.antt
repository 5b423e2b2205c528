-- ===== src/Tracer/Own.antt =====
-- What an event does to its own thread, in the loop of src/trace/tracer.cpp.
use gravelbox.Base.{◌∷◌, ℕ, ◌≡◌, ◌≢◌, true, Option, none, some, ◌⊎◌, ok, arith}
use gravelbox.NatMap
use gravelbox.NatMap.{find-assign, find-erase}
use gravelbox.Tracer.Types.{
  sigstop, sigtrap_syscall, ThreadStatus, userspace, kernelspace_allow, kernelspace_deny, stopped,
  Event, Tracer, resumed_with,
}
use gravelbox.Tracer.Log.{
  Standing, free, allowed, cancelled, standing, may_resume, Mediated, resumes,
}
use gravelbox.Tracer.Loop.{
  Callbacks, on_status, on_stop, on_syscall_stop, on_entry, enter_verdict, report_denial,
}

-- A thread behind a system call's entry: let through, or refused and its call cancelled.
abbrev pub Entered : Option ThreadStatus → Standing → Type 0
Entered st sd =
    ((st ≡ some kernelspace_allow) × (sd ≡ allowed))
    ⊎ ((st ≡ some kernelspace_deny) × (sd ≡ cancelled))

module _ {W : Type 0} (cb : Callbacks W) (e : Event) where
  pub on_entry-Entered :
      (t : Tracer W)
      → (on_entry cb e t).0 ≡ ok tt
      → Entered
          (NatMap.find e.pid (on_entry cb e t).1.thread_status)
          (standing e.pid (on_entry cb e t).1.log)
  unfolding on_entry enter_verdict standing
  on_entry-Entered t h = grind (arith, find-assign)

  pub Mediated-on_entry : (t : Tracer W) → Mediated t.log → Mediated (on_entry cb e t).1.log
  unfolding on_entry enter_verdict
  Mediated-on_entry t h = ground arith

  resumes-on_entry : (t : Tracer W) → resumes e.pid (on_entry cb e t).1.log ≡ resumes e.pid t.log
  unfolding on_entry enter_verdict resumes
  resumes-on_entry t = ground arith

  pub on_stop-Entered :
      (t : Tracer W)
      → NatMap.find e.pid t.thread_status ≡ some userspace
      → (on_stop cb e sigtrap_syscall t).0 ≡ ok tt
      → Entered
          (NatMap.find e.pid (on_stop cb e sigtrap_syscall t).1.thread_status)
          (standing e.pid (on_stop cb e sigtrap_syscall t).1.log)
  unfolding on_stop on_syscall_stop
  on_stop-Entered t k h = ground (arith, on_entry-Entered t)

  -- The end of a system call: the thread is in user space again, and may go on.
  pub on_stop-left :
      (t : Tracer W)
      → (NatMap.find e.pid t.thread_status ≡ some kernelspace_allow)
        ⊎ (NatMap.find e.pid t.thread_status ≡ some kernelspace_deny)
      → standing e.pid t.log ≡ free
      → (on_stop cb e sigtrap_syscall t).0 ≡ ok tt
      → (NatMap.find e.pid (on_stop cb e sigtrap_syscall t).1.thread_status ≡ some userspace)
        × (may_resume (standing e.pid (on_stop cb e sigtrap_syscall t).1.log) ≡ true)
  unfolding on_stop on_syscall_stop report_denial standing may_resume
  on_stop-left t k f h = ground (arith, find-assign e.pid e.pid userspace t.thread_status)

  -- Any other stop of a known thread changes nothing.
  pub on_stop-other :
      (t : Tracer W) (sig : ℕ) {st : ThreadStatus}
      → NatMap.find e.pid t.thread_status ≡ some st
      → sig ≢ sigtrap_syscall
      → on_stop cb e sig t ≡ (ok tt, t)
  unfolding on_stop
  on_stop-other t sig k h = ground arith

  -- The first stop of a new thread.
  pub on_stop-new :
      (t : Tracer W)
      → NatMap.find e.pid t.thread_status ≡ none
      → on_stop cb e sigstop t
        ≡ (ok tt, record t { thread_status = NatMap.assign e.pid userspace t.thread_status })
  unfolding on_stop
  on_stop-new t k = ground arith

  pub Mediated-on_stop :
      (t : Tracer W) (sig : ℕ) → Mediated t.log → Mediated (on_stop cb e sig t).1.log
  unfolding on_stop on_syscall_stop report_denial
  Mediated-on_stop t sig h = ground (arith, Mediated-on_entry t)

  pub resumes-on_stop :
      (t : Tracer W) (sig : ℕ) → resumes e.pid (on_stop cb e sig t).1.log ≡ resumes e.pid t.log
  unfolding on_stop on_syscall_stop report_denial resumes
  resumes-on_stop t sig = ground (arith, resumes-on_entry t)

  -- A stop that is handled without an error ends with the thread let go, or with ESRCH.
  pub on_status_stopped :
      (t : Tracer W) (sig : ℕ)
      → (on_status cb e (stopped sig) t).0 ≡ ok none
      → (((on_stop cb e sig t).0 ≡ ok tt)
          × ((on_status cb e (stopped sig) t).1 ≡ record (on_stop cb e sig t).1 {
            log = resumed_with e.pid 0 ∷ (on_stop cb e sig t).1.log;
          }))
        ⊎ ((on_status cb e (stopped sig) t).1 ≡ (on_stop cb e sig t).1)
  unfolding on_status
  on_status_stopped t sig h = ground arith
