-- ===== src/Tracer/Loop.antt =====
-- The loop of `run_with_callbacks` in src/trace/tracer.cpp. What `waitpid` and `ptrace` answer is an
-- input; what the loop does to the tracees is written to `log`, latest first.
use gravelbox.Base.{
  ℕ, ◌+◌, Bool, true, false, ◌||◌, Option, none, some, List, [], ◌∷◌, ◌==◌, if◌then◌else◌,
  Exception, system_error, out_of_range, ok, throw, terminate,
}
use gravelbox.Utils.{SyscallArgs, Reply, done, errno, check}
use gravelbox.NatMap
use gravelbox.Exec.{Exec, pure, lift, try_catch, ◌>>=◌, ◌>>◌}
use gravelbox.Tracer.Types.{
  esrch, eperm, sigstop, sigtrap_syscall, info_entry, audit_arch_i386, audit_arch_x86_64, minus,
  ThreadStatus, userspace, kernelspace_allow, kernelspace_deny, WaitStatus, exited, signaled,
  stopped, other, wait_status, Event, Action, inspected, decided, read_regs, wrote_regs,
  resumed_with, erased, Tracer, syscall_args,
}

-- The two callbacks, with the state that they work on.
pub record Callbacks (W : Type 0) : Type 0 where
  pub pid_callback : ℕ → W → W
  pub syscall_callback : SyscallArgs → Exec W Bool

module _ {W : Type 0} where
  unfoldable pub record_action : Action → Exec (Tracer W) (Unit {0})
  record_action a t = (ok tt, record t { log = a ∷ t.log })

  unfoldable pub set_status : ℕ → ThreadStatus → Exec (Tracer W) (Unit {0})
  set_status pid st t = (ok tt, record t { thread_status = NatMap.assign pid st t.thread_status })

  -- check(::ptrace(...)): a request that the kernel refused has done nothing.
  unfoldable pub request : {A : Type 0} → Action → Reply A → Exec (Tracer W) A
  unfolding check record_action ◌>>=◌
  request a r = do v ← lift (check r); record_action a; pure v

  unfoldable pub assert : Bool → Exec (Tracer W) (Unit {0})
  assert true t = (ok tt, t)
  assert false t = (terminate, t)

module _ {W : Type 0} (cb : Callbacks W) where
  open cb use {pid_callback, syscall_callback}

  -- syscall_callback(args), on the world inside the tracer's state.
  unfoldable pub run_callback : SyscallArgs → Exec (Tracer W) Bool
  run_callback args t = let (r, w) = syscall_callback args t.world in (r, record t { world = w })

  unfoldable pub run_pid_callback : ℕ → Exec (Tracer W) (Unit {0})
  run_pid_callback pid t = (ok tt, record t { world = pid_callback pid t.world })

  -- case ThreadStatus::USERSPACE, from the callback's answer on.
  unfoldable pub enter_verdict : Event → Bool → Exec (Tracer W) (Unit {0})
  unfolding set_status request ◌>>=◌
  enter_verdict e true = set_status e.pid kernelspace_allow
  enter_verdict e false = do
    regs ← request (read_regs e.pid) e.regs
    let regs' = record regs { orig_rax = minus 1 }
    request (wrote_regs e.pid regs') e.set
    set_status e.pid kernelspace_deny

  unfoldable pub on_entry : Event → Exec (Tracer W) (Unit {0})
  unfolding request assert run_callback run_pid_callback record_action syscall_args ◌>>=◌
  on_entry e = do
    info ← request (inspected e.pid) e.info
    assert (info.op == info_entry)
    assert (info.arch == audit_arch_i386 || info.arch == audit_arch_x86_64)
    run_pid_callback e.pid
    let args = syscall_args info
    verdict ← run_callback args
    record_action (decided e.pid args verdict)
    enter_verdict e verdict

  -- case ThreadStatus::KERNELSPACE_DENY, up to the fall-through.
  unfoldable pub report_denial : Event → Exec (Tracer W) (Unit {0})
  unfolding request ◌>>=◌
  report_denial e = do
    regs ← request (read_regs e.pid) e.regs
    let regs' = record regs { rax = minus eperm }
    request (wrote_regs e.pid regs') e.set

  -- The inner switch.
  unfoldable pub on_syscall_stop : Event → ThreadStatus → Exec (Tracer W) (Unit {0})
  unfolding set_status ◌>>=◌
  on_syscall_stop e userspace = on_entry e
  on_syscall_stop e kernelspace_deny = do report_denial e; set_status e.pid userspace
  on_syscall_stop e kernelspace_allow = set_status e.pid userspace

  -- thread_status.at(child)
  unfoldable pub status_at : ℕ → Exec (Tracer W) ThreadStatus
  status_at pid t = elim (NatMap.find pid t.thread_status) [
    | none ↦ (throw out_of_range, t)
    | some st ↦ (ok st, t)
  ]

  unfoldable pub on_sigstop : ℕ → Exec (Tracer W) (Unit {0})
  unfolding set_status
  on_sigstop pid t = elim (NatMap.find pid t.thread_status) [
    | none ↦ set_status pid userspace t
    | some _ ↦ (ok tt, t)
  ]

  -- The outer switch on WSTOPSIG.
  unfoldable pub on_stop : Event → ℕ → Exec (Tracer W) (Unit {0})
  unfolding on_sigstop status_at ◌>>=◌
  on_stop e sig t =
      if sig == sigstop
      then on_sigstop e.pid t
      else if sig == sigtrap_syscall
      then (status_at e.pid >>= on_syscall_stop e) t
      else (ok tt, t)

  -- check(::ptrace(PTRACE_SYSCALL, child, nullptr, 0)): the last argument is the signal delivered.
  unfoldable pub resume : Event → Exec (Tracer W) (Unit {0})
  unfolding request
  resume e = request (resumed_with e.pid 0) e.resumed

  -- catch (const std::system_error &se)
  unfoldable pub tolerate_esrch : Exception → Exec (Tracer W) (Unit {0})
  tolerate_esrch (system_error n) t = if n == esrch then (ok tt, t) else (throw (system_error n), t)
  tolerate_esrch x t = (throw x, t)

  -- WIFEXITED(wstatus) || WIFSIGNALED(wstatus)
  unfoldable pub on_death : ℕ → ℕ → Exec (Tracer W) (Option ℕ)
  on_death pid code t =
      let m = NatMap.erase pid t.thread_status in
      let l = erased pid ∷ t.log in
      (ok (if NatMap.is_empty m then some code else none), record t { thread_status = m; log = l })

  unfoldable pub on_status : Event → WaitStatus → Exec (Tracer W) (Option ℕ)
  unfolding on_death resume tolerate_esrch try_catch ◌>>=◌
  on_status e (exited c) = on_death e.pid c
  on_status e (signaled sig) = on_death e.pid (128 + sig)
  on_status e (stopped sig) = do try_catch (do on_stop e sig; resume e) tolerate_esrch; pure none
  on_status e other = pure none

  -- One round of `while (true)`; `some` is the `return`.
  unfoldable pub on_event : Event → Exec (Tracer W) (Option ℕ)
  on_event e = on_status e (wait_status e.wstatus)

  -- `return` ends the loop; otherwise it goes on.
  unfoldable pub return_or : Exec (Tracer W) (Option ℕ) → Option ℕ → Exec (Tracer W) (Option ℕ)
  return_or again (some c) = pure (some c)
  return_or again none = again

  -- The loop over what `waitpid` returns; `none` is a loop that still waits.
  unfoldable pub trace_loop : List (Reply Event) → Exec (Tracer W) (Option ℕ)
  unfolding return_or ◌>>=◌
  trace_loop [] = pure none
  trace_loop (errno n ∷ _) = lift (throw (system_error n))
  trace_loop (done e ∷ rest) = let again = trace_loop rest in on_event e >>= return_or again
