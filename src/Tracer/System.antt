-- ===== src/Tracer/System.antt =====
-- The threads of the target beside the loop of src/trace/tracer.cpp: where the kernel has each of
-- them, and which stops it then reports, as ptrace(2) says.
use gravelbox.Base.{ℕ, ◌≡◌, Bool, none, ◌==◌, ltb, if◌then◌else◌, ok}
use gravelbox.Tracer.Types.{
  sigstop, sigtrap_syscall, WaitStatus, exited, signaled, stopped, other, wait_status, Event,
  Tracer,
}
use gravelbox.Tracer.Log.{resumes}
use gravelbox.Tracer.Loop.{Callbacks, on_event}

-- `dying` is a thread that was not let go after its stop: ptrace said ESRCH.
pub data Phase : Type 0 where
  absent in_user in_kernel dying : Phase

-- A new thread stops by SIGSTOP first; after that a thread may stop at any time that it runs; a
-- dying one only ends.
abbrev pub Delivers : Phase → WaitStatus → Type 0
Delivers absent (stopped sig) = sig ≡ sigstop
Delivers absent _ = ⊥
Delivers in_user other = ⊥
Delivers in_user _ = Unit
Delivers in_kernel other = ⊥
Delivers in_kernel _ = Unit
Delivers dying (exited _) = Unit
Delivers dying (signaled _) = Unit
Delivers dying _ = ⊥

-- A thread that is let go at a system call's entry is in the kernel, and at its exit in user space.
unfoldable pub let_go : Phase → ℕ → Phase
let_go absent sig = in_user
let_go in_user sig = if sig == sigtrap_syscall then in_kernel else in_user
let_go in_kernel sig = if sig == sigtrap_syscall then in_user else in_kernel
let_go dying sig = dying

unfoldable pub next_phase : Phase → WaitStatus → Bool → Phase
next_phase ph (exited _) resumed = absent
next_phase ph (signaled _) resumed = absent
next_phase ph (stopped sig) resumed = if resumed then let_go ph sig else dying
next_phase ph other resumed = ph

pub record Sys (W : Type 0) : Type 0 where
  pub tracer : Tracer W
  pub phase : ℕ → Phase

module _ {W : Type 0} (cb : Callbacks W) where
  -- The state after an event that the loop handles.
  unfoldable pub after : Event → Sys W → Sys W
  after e s =
      let t = (on_event cb e s.tracer).1 in
      let resumed = ltb (resumes e.pid s.tracer.log) (resumes e.pid t.log) in
      record {
        tracer = t;
        phase = λ q.
            if e.pid == q
            then next_phase (s.phase q) (wait_status e.wstatus) resumed
            else s.phase q;
      }

  -- One round of the loop, on an event that the kernel can report there.
  pub data Step (s : Sys W) (u : Sys W) : Type 0 where
    round :
        (e : Event)
        → Delivers (s.phase e.pid) (wait_status e.wstatus)
        → (on_event cb e s.tracer).0 ≡ ok none
        → u ≡ after e s
        → Step s u

  pub data Reach (s : Sys W) : Sys W → Type 0 where
    here : Reach s s
    next : {u v : Sys W} → Reach s u → Step u v → Reach s v
