-- ===== src/Tracer/Run.antt =====
-- `run_with_callbacks` of src/trace/tracer.cpp from its first `waitpid` on, and the `try` around it.
use gravelbox.Base.{ℕ, ◌+◌, ◌==◌, Option, List, [], throw, terminate, child_exit_exception}
use gravelbox.Utils.{Reply, check}
use gravelbox.Exec.{Exec, lift, ◌>>=◌, ◌>>◌}
use gravelbox.Tracer.Types.{
  sigstop, userspace, WaitStatus, exited, signaled, stopped, other, wait_status, Event, Tracer,
  set_options, resumed_with,
}
use gravelbox.Tracer.Loop.{Callbacks, request, assert, set_status, trace_loop}

-- TRACESYSGOOD, TRACEFORK, TRACEVFORK, TRACECLONE and EXITKILL.
abbrev pub trace_options : ℕ
trace_options = 0x1 + 0x2 + 0x4 + 0x8 + 0x100000

-- What the system answers to a run: `fork`, the first `waitpid`, the two requests that start the
-- trace, and the `waitpid` calls of the loop.
pub record Launch : Type 0 where
  pub forked : Reply ℕ
  pub first_wait : Reply ℕ
  pub options_set : Reply (Unit {0})
  pub let_run : Reply (Unit {0})
  pub events : List (Reply Event)

module _ {W : Type 0} where
  -- The child is stopped before its `exec`, or has failed to start.
  unfoldable pub await_start : WaitStatus → Exec (Tracer W) (Unit {0})
  unfolding assert
  await_start (exited c) t = (throw (child_exit_exception c), t)
  await_start (signaled sig) t = (throw (child_exit_exception (128 + sig)), t)
  await_start (stopped sig) t = assert (sig == sigstop) t
  await_start other t = (terminate, t)

  unfoldable pub start_trace : Launch → Exec (Tracer W) (Unit {0})
  unfolding request set_status await_start check ◌>>=◌
  start_trace l = do
    child ← lift (check l.forked)
    wstatus ← lift (check l.first_wait)
    await_start (wait_status wstatus)
    request (set_options child trace_options) l.options_set
    request (resumed_with child 0) l.let_run
    set_status child userspace

  unfoldable pub run_with_callbacks : Callbacks W → Launch → Exec (Tracer W) (Option ℕ)
  unfolding ◌>>=◌
  run_with_callbacks cb l = start_trace l >> trace_loop cb l.events

  abbrev pub untraced : W → Tracer W
  untraced w = record { thread_status = []; world = w; log = [] }
