-- ===== src/Tracer/Granted.antt =====
-- Where the calls that are let through come from: the loop of src/trace/tracer.cpp with any callbacks.
use gravelbox.Base.{ℕ, ◌≡◌, true, List, ◌∷◌, [], inl, inr, Outcome-cases, ok, arith}
use gravelbox.Exec.{◌>>=◌}
use gravelbox.Tracer.Run.{Launch, start_trace, run_with_callbacks}
use gravelbox.Utils.{SyscallArgs, Reply, done, errno}
use gravelbox.Tracer.Types.{Event, Tracer, Action, decided}
use gravelbox.Tracer.Loop.{
  Callbacks, on_event, on_status, on_stop, on_syscall_stop, on_entry, enter_verdict, report_denial,
  trace_loop,
}

-- Every call that was decided with a yes has a property.
abbrev pub Granted : (ℕ → SyscallArgs → Type 0) → List Action → Type 0
Granted P [] = Unit
Granted P (decided p c true ∷ l) = P p c × Granted P l
Granted P (_ ∷ l) = Granted P l

-- Where the state of the callbacks has an invariant, and what they say yes to has a property.
module _ {W : Type 0} (cb : Callbacks W) (P : ℕ → SyscallArgs → Type 0) (I : W → Type 0)
    (keeps_pid : (p : ℕ) (w : W) → I w → I (cb.pid_callback p w))
    (keeps : (c : SyscallArgs) (w : W) → I w → I (cb.syscall_callback c w).1)
    (granted : (p : ℕ) (c : SyscallArgs) (w : W)
      → I w
      → (cb.syscall_callback c (cb.pid_callback p w)).0 ≡ ok true
      → P p c) where
  pub record Safe (t : Tracer W) : Type 0 where
    pub log : Granted P t.log
    pub world : I t.world

  Safe-on_entry : (e : Event) (t : Tracer W) → Safe t → Safe (on_entry cb e t).1
  unfolding on_entry enter_verdict
  Safe-on_entry e t h = grind (arith, granted, keeps, keeps_pid)

  pub Safe-on_event : (e : Event) (t : Tracer W) → Safe t → Safe (on_event cb e t).1
  unfolding on_event on_status on_stop on_syscall_stop report_denial
  Safe-on_event e t h = ground (arith, Safe-on_entry e t)

  pub Safe-trace_loop :
      (events : List (Reply Event)) (t : Tracer W) → Safe t → Safe (trace_loop cb events t).1
  unfolding trace_loop
  Safe-trace_loop [] t h = h
  Safe-trace_loop (errno n ∷ rest) t h = h
  Safe-trace_loop (done e ∷ rest) t h =
      ground (arith, Safe-on_event e t h, Safe-trace_loop rest (on_event cb e t).1)

  pub Safe-start_trace : (l : Launch) (t : Tracer W) → Safe t → Safe (start_trace l t).1
  unfolding start_trace
  Safe-start_trace l t h = ground arith

  pub Safe-run_with_callbacks :
      (l : Launch) (t : Tracer W) → Safe t → Safe (run_with_callbacks cb l t).1
  unfolding run_with_callbacks ◌>>=◌
  Safe-run_with_callbacks l t h = elim (Outcome-cases (start_trace l t).0) [
    | inl (_, k) ↦ rw k (Safe-trace_loop l.events (start_trace l t).1 (Safe-start_trace l t h))
    | inr (inl (x, k)) ↦ rw k (Safe-start_trace l t h)
    | inr (inr k) ↦ rw k (Safe-start_trace l t h)
  ]
