-- ===== src/Tracer/Worlds.antt =====
-- What the loop of src/trace/tracer.cpp keeps of the state of its callbacks.
use gravelbox.Base.{
  ℕ, ◌+◌, ◌≡◌, refl, Bool, Bool-cases, inl, inr, ◌||◌, ◌==◌, Option, none, some, List, [], ◌∷◌,
  Exception, arith,
}
use gravelbox.Utils.{SyscallArgs, Reply, done, errno}
use gravelbox.Exec.{Exec}
use gravelbox.Exec.Keeps.{Keeps, Keeps-pure, Keeps-lift, Keeps-bind, Keeps-try_catch, kept, ended}
use gravelbox.Tracer.Types.{
  sigstop, sigtrap_syscall, info_entry, audit_arch_i386, audit_arch_x86_64, ThreadStatus, userspace,
  kernelspace_allow, kernelspace_deny, WaitStatus, exited, signaled, stopped, other, wait_status,
  Event, Action, Tracer, syscall_args, inspected, decided, resumed_with,
}
use gravelbox.Tracer.Loop.{
  Callbacks, request, record_action, assert, run_callback, run_pid_callback, enter_verdict,
  on_entry, report_denial, on_syscall_stop, status_at, on_sigstop, on_stop, resume, tolerate_esrch,
  on_death, on_status, on_event, return_or, trace_loop,
}
use gravelbox.Tracer.Run.{Launch, start_trace, run_with_callbacks}

module _ {W : Type 0} (cb : Callbacks W) (Q : Type 0) (I : W → Type 0)
    (keeps_pid : (p : ℕ) (w : W) → I w → I (cb.pid_callback p w))
    (keeps : (c : SyscallArgs) → Keeps Q I (cb.syscall_callback c)) where
  abbrev World : Tracer W → Type 0
  World t = I t.world

  abbrev KeepsWorld : {A : Type 0} → Exec (Tracer W) A → Type 0
  KeepsWorld m = Keeps Q World m

  -- A statement that does not touch the state of the callbacks.
  apart :
      {A : Type 0} (m : Exec (Tracer W) A)
      → ((t : Tracer W) → (m t).1.world ≡ t.world)
      → KeepsWorld m
  apart m same = record { at = λ t h. kept (rw (same t) h) }

  request-KeepsWorld : {A : Type 0} (a : Action) (r : Reply A) → KeepsWorld (request a r)
  unfolding request
  request-KeepsWorld a (done v) = apart (request a (done v)) (λ t. refl)
  request-KeepsWorld a (errno n) = apart (request a (errno n)) (λ t. refl)

  run_callback-KeepsWorld : (c : SyscallArgs) → KeepsWorld (run_callback cb c)
  unfolding run_callback
  run_callback-KeepsWorld c = record {
    at = λ t h. elim ((keeps c).at t.world h) [ ended e q ↦ ended e q | kept k ↦ kept k ];
  }

  run_pid_callback-KeepsWorld : (p : ℕ) → KeepsWorld (run_pid_callback cb p)
  unfolding run_pid_callback
  run_pid_callback-KeepsWorld p = record { at = λ t h. kept (keeps_pid p t.world h) }

  enter_verdict-KeepsWorld : (e : Event) (v : Bool) → KeepsWorld (enter_verdict cb e v)
  unfolding enter_verdict
  enter_verdict-KeepsWorld e v = apart (enter_verdict cb e v) (λ t. ground arith)

  assert-KeepsWorld : (b : Bool) → KeepsWorld (assert {W = W} b)
  unfolding assert
  assert-KeepsWorld b = apart (assert b) (λ t. ground arith)

  on_entry-KeepsWorld : (e : Event) → KeepsWorld (on_entry cb e)
  unfolding on_entry
  on_entry-KeepsWorld e = Keeps-bind (request-KeepsWorld (inspected e.pid) e.info) (λ info.
      Keeps-bind (assert-KeepsWorld (info.op == info_entry)) (λ _.
        Keeps-bind
          (assert-KeepsWorld (info.arch == audit_arch_i386 || info.arch == audit_arch_x86_64))
          (λ _. Keeps-bind (run_pid_callback-KeepsWorld e.pid) (λ _.
            Keeps-bind (run_callback-KeepsWorld (syscall_args info)) (λ verdict.
              Keeps-bind
                (apart (record_action (decided e.pid (syscall_args info) verdict)) (λ t. refl))
                (λ _. enter_verdict-KeepsWorld e verdict))))))

  on_syscall_stop-KeepsWorld : (e : Event) (s : ThreadStatus) → KeepsWorld (on_syscall_stop cb e s)
  unfolding on_syscall_stop report_denial
  on_syscall_stop-KeepsWorld e userspace = on_entry-KeepsWorld e
  on_syscall_stop-KeepsWorld e kernelspace_deny =
      apart (on_syscall_stop cb e kernelspace_deny) (λ t. ground arith)
  on_syscall_stop-KeepsWorld e kernelspace_allow =
      apart (on_syscall_stop cb e kernelspace_allow) (λ t. refl)

  on_sigstop-KeepsWorld : (p : ℕ) → KeepsWorld (on_sigstop cb p)
  unfolding on_sigstop
  on_sigstop-KeepsWorld p = apart (on_sigstop cb p) (λ t. ground arith)

  status_at-KeepsWorld : (p : ℕ) → KeepsWorld (status_at cb p)
  unfolding status_at
  status_at-KeepsWorld p = apart (status_at cb p) (λ t. ground arith)

  on_stop-KeepsWorld : (e : Event) (sig : ℕ) → KeepsWorld (on_stop cb e sig)
  unfolding on_stop
  on_stop-KeepsWorld e sig = record {
    at = λ t h. elim (Bool-cases (sig == sigstop)) [
      | inl y ↦ rw y ((on_sigstop-KeepsWorld e.pid).at t h)
      | inr n ↦ elim (Bool-cases (sig == sigtrap_syscall)) [
        | inl y ↦
            rw (n, y)
              ((Keeps-bind (status_at-KeepsWorld e.pid) (on_syscall_stop-KeepsWorld e)).at t h)
        | inr m ↦ rw (n, m) (kept h)
      ]
    ];
  }

  tolerate_esrch-KeepsWorld : (x : Exception) → KeepsWorld (tolerate_esrch cb x)
  unfolding tolerate_esrch
  tolerate_esrch-KeepsWorld x = apart (tolerate_esrch cb x) (λ t. ground arith)

  on_death-KeepsWorld : (p code : ℕ) → KeepsWorld (on_death cb p code)
  unfolding on_death
  on_death-KeepsWorld p code = apart (on_death cb p code) (λ t. refl)

  on_status-KeepsWorld : (e : Event) (ws : WaitStatus) → KeepsWorld (on_status cb e ws)
  unfolding on_status resume
  on_status-KeepsWorld e (exited c) = on_death-KeepsWorld e.pid c
  on_status-KeepsWorld e (signaled sig) = on_death-KeepsWorld e.pid (128 + sig)
  on_status-KeepsWorld e (stopped sig) =
      Keeps-bind
        (Keeps-try_catch
          (Keeps-bind (on_stop-KeepsWorld e sig)
            (λ _. request-KeepsWorld (resumed_with e.pid 0) e.resumed))
          tolerate_esrch-KeepsWorld)
        (λ _. Keeps-pure none)
  on_status-KeepsWorld e other = Keeps-pure none

  trace_loop-KeepsWorld : (events : List (Reply Event)) → KeepsWorld (trace_loop cb events)
  unfolding trace_loop on_event
  trace_loop-KeepsWorld [] = Keeps-pure none
  trace_loop-KeepsWorld (errno n ∷ rest) = Keeps-lift _
  trace_loop-KeepsWorld (done e ∷ rest) =
      Keeps-bind (on_status-KeepsWorld e (wait_status e.wstatus))
        (λ r. return_or-KeepsWorld (trace_loop cb rest) r (trace_loop-KeepsWorld rest))
    where
      return_or-KeepsWorld :
          (m : Exec (Tracer W) (Option ℕ)) (r : Option ℕ)
          → KeepsWorld m
          → KeepsWorld (return_or cb m r)
      return_or-KeepsWorld m (some c) k = Keeps-pure (some c)
      return_or-KeepsWorld m none k = k

  start_trace-KeepsWorld : (l : Launch) → KeepsWorld (start_trace l)
  unfolding start_trace
  start_trace-KeepsWorld l = apart (start_trace l) (λ t. ground arith)

  -- Whatever the system answers, a run keeps what its callbacks keep.
  pub run_with_callbacks-KeepsWorld : (l : Launch) → KeepsWorld (run_with_callbacks cb l)
  unfolding run_with_callbacks
  run_with_callbacks-KeepsWorld l =
      Keeps-bind (start_trace-KeepsWorld l) (λ _. trace_loop-KeepsWorld l.events)
