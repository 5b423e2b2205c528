-- ===== src/Tracer/Refinement.antt =====
-- The loop of src/trace/tracer.cpp as an implementation of the reference monitor of Tracer.Monitor.
use gravelbox.Base.{
  ℕ, ◌≡◌, refl, Bool, true, false, Bool-cases, none, some, Option-cases, List, [], ◌∷◌, ◌==◌,
  Outcome-cases, ◌⊎◌, inl, inr, arith,
}
use gravelbox.Utils.{Reply-cases, Reply, done, errno}
use gravelbox.Exec.{◌>>=◌}
use gravelbox.NatMap
use gravelbox.NatMap.{NatMap, find-assign, find-erase}
use gravelbox.Tracer.Types.{
  sigstop, sigtrap_syscall, ThreadStatus, userspace, kernelspace_allow, kernelspace_deny,
  WaitStatus, exited, signaled, stopped, other, Event, Tracer, wait_status,
}
use gravelbox.Tracer.Loop.{
  Callbacks, on_event, trace_loop, on_status, on_stop, on_sigstop, status_at, on_syscall_stop,
  on_entry,
}
use gravelbox.Tracer.Monitor.{
  Monitor, in_call, Move, appears, enters, vanishes, returns, ends, stays, Moves, start, then_move,
  nothing, LastRuled, Moves-LastRuled,
}
use gravelbox.Tracer.Run.{Launch, start_trace, run_with_callbacks, untraced}
use gravelbox.Tracer.Seen.{
  decisions_of, seen, Has, seen-Has, find-moved, find-removed, report_denial-Has, on_entry-Has,
}

module _ {W : Type 0} (cb : Callbacks W) (e : Event) where
  on_syscall_stop-Move :
      (t : Tracer W) (s : ThreadStatus)
      → NatMap.find e.pid t.thread_status ≡ some s
      → Move cb (seen t) (seen (on_syscall_stop cb e s t).1)
  unfolding on_syscall_stop
  on_syscall_stop-Move t userspace h = elim (on_entry-Has cb e t) [
    | inl same ↦ rw (seen-Has (on_entry cb e t).1 _ _ same) stays
    | inr (args, v, k, inl has) ↦
        rw (seen-Has (on_entry cb e t).1 _ _ has, find-moved e.pid (in_call v) t.thread_status)
          (enters (record { thread = e.pid; call = args; verdict = v }) h (t.world, k))
    | inr (args, v, k, inr (f, has)) ↦
        rw (seen-Has (on_entry cb e t).1 _ _ has)
          (vanishes (record { thread = e.pid; call = args; verdict = v }) h (t.world, k) f)
  ]
  on_syscall_stop-Move t kernelspace_deny h =
      let t' = (on_syscall_stop cb e kernelspace_deny t).1 in
      let m = t.thread_status in
      let left : Has t' (NatMap.assign e.pid userspace m) (decisions_of t.log)
          ⊎ Has t' m (decisions_of t.log) =
        ground (arith, report_denial-Has cb e t) in
      elim left [
        | inl has ↦ rw (seen-Has t' _ _ has, find-moved e.pid userspace m) (returns e.pid false h)
        | inr same ↦ rw (seen-Has t' _ _ same) stays
      ]
  on_syscall_stop-Move t kernelspace_allow h =
      rw (find-moved e.pid userspace t.thread_status) (returns e.pid true h)

  on_sigstop-Move : (t : Tracer W) → Move cb (seen t) (seen (on_sigstop cb e.pid t).1)
  unfolding on_sigstop
  on_sigstop-Move t = elim (Option-cases (NatMap.find e.pid t.thread_status)) [
    | inl new ↦ rw (on_sigstop, new, find-moved e.pid userspace t.thread_status) (appears e.pid new)
    | inr (s, known) ↦ rw (on_sigstop, known) stays
  ]

  syscall_stop-Move :
      (t : Tracer W) → Move cb (seen t) (seen ((status_at cb e.pid >>= on_syscall_stop cb e) t).1)
  unfolding status_at ◌>>=◌
  syscall_stop-Move t = elim (Option-cases (NatMap.find e.pid t.thread_status)) [
    | inl new ↦ rw (status_at, new) stays
    | inr (s, known) ↦ rw (status_at, known) (on_syscall_stop-Move t s known)
  ]

  on_stop-Move : (t : Tracer W) (sig : ℕ) → Move cb (seen t) (seen (on_stop cb e sig t).1)
  unfolding on_stop
  on_stop-Move t sig = elim (Bool-cases (sig == sigstop)) [
    | inl y ↦ rw y (on_sigstop-Move t)
    | inr n ↦ elim (Bool-cases (sig == sigtrap_syscall)) [
      | inl y ↦ rw (n, y) (syscall_stop-Move t)
      | inr m ↦ rw (n, m) stays
    ]
  ]

  -- What follows a stop changes neither the table nor the decisions.
  on_status-seen :
      (t : Tracer W) (sig : ℕ)
      → seen (on_status cb e (stopped sig) t).1 ≡ seen (on_stop cb e sig t).1
  unfolding on_status decisions_of
  on_status-seen t sig =
      let t' = (on_stop cb e sig t).1 in
      let t'' = (on_status cb e (stopped sig) t).1 in
      let same : Has t'' t'.thread_status (decisions_of t'.log) = ground arith in
      seen-Has t'' _ _ same

  on_status-Move :
      (t : Tracer W) (ws : WaitStatus) → Move cb (seen t) (seen (on_status cb e ws t).1)
  unfolding on_status decisions_of
  on_status-Move t (exited c) = rw (find-removed e.pid t.thread_status) (ends e.pid)
  on_status-Move t (signaled sig) = rw (find-removed e.pid t.thread_status) (ends e.pid)
  on_status-Move t (stopped sig) = rw (on_status-seen t sig) (on_stop-Move t sig)
  on_status-Move t other = stays

module _ {W : Type 0} (cb : Callbacks W) where
  Moves-after : {m n o : Monitor} → Move cb m n → Moves cb n o → Moves cb m o
  Moves-after a start = then_move start a
  Moves-after a (then_move b c) = then_move (Moves-after a b) c

  pub on_event-Move : (e : Event) (t : Tracer W) → Move cb (seen t) (seen (on_event cb e t).1)
  unfolding on_event
  on_event-Move e t = on_status-Move cb e t (wait_status e.wstatus)

  trace_loop-Moves :
      (events : List (Reply Event)) (t : Tracer W)
      → Moves cb (seen t) (seen (trace_loop cb events t).1)
  unfolding trace_loop
  trace_loop-Moves [] t = start
  trace_loop-Moves (errno n ∷ rest) t = start
  trace_loop-Moves (done e ∷ rest) t = elim (Outcome-cases (on_event cb e t).0) [
    | inl (none, h) ↦
        rw h (Moves-after (on_event-Move e t) (trace_loop-Moves rest (on_event cb e t).1))
    | inl (some c, h) ↦ rw h (then_move start (on_event-Move e t))
    | inr (inl (x, h)) ↦ rw h (then_move start (on_event-Move e t))
    | inr (inr h) ↦ rw h (then_move start (on_event-Move e t))
  ]

  Moves-trans : {m n o : Monitor} → Moves cb m n → Moves cb n o → Moves cb m o
  Moves-trans a start = a
  Moves-trans a (then_move b c) = then_move (Moves-trans a b) c

  pub start_trace-Moves :
      (l : Launch) (w : W) → Moves cb nothing (seen (start_trace l (untraced w)).1)
  unfolding NatMap.find start_trace decisions_of
  start_trace-Moves l w =
      let t' = (start_trace l (untraced w)).1 in
      elim (Reply-cases l.forked) [
        | inr (n, h) ↦ let same : Has t' [] [] = ground arith in rw (seen-Has t' _ _ same) start
        | inl (p, h) ↦
            let begun : Has t' [] [] ⊎ Has t' (NatMap.assign p userspace []) [] = ground arith in
            elim begun [
              | inl same ↦ rw (seen-Has t' _ _ same) start
              | inr has ↦
                  rw (seen-Has t' _ _ has, find-moved p userspace [])
                    (then_move start (appears p refl))
            ]
      ]

  -- Whatever the system answers, and however the run ends: what it knows of the threads, and what it
  -- decided, came about by moves of the reference monitor under the policy of the callbacks, from a
  -- monitor that knows no thread.
  pub run_with_callbacks-Moves :
      (l : Launch) (w : W) → Moves cb nothing (seen (run_with_callbacks cb l (untraced w)).1)
  unfolding run_with_callbacks ◌>>=◌
  run_with_callbacks-Moves l w = elim (Outcome-cases (start_trace l (untraced w)).0) [
    | inl (_, h) ↦ rw h (
        Moves-trans (start_trace-Moves l w)
          (trace_loop-Moves l.events (start_trace l (untraced w)).1))
    | inr (inl (x, h)) ↦ rw h (start_trace-Moves l w)
    | inr (inr h) ↦ rw h (start_trace-Moves l w)
  ]

  -- However a run ends: a thread that it has in a system call, as allowed or as denied, is one whose last
  -- call was decided so by the policy.
  pub run_with_callbacks_ruling :
      (l : Launch) (w : W) (p : ℕ) (v : Bool)
      → NatMap.find p (run_with_callbacks cb l (untraced w)).1.thread_status ≡ some (in_call v)
      → LastRuled cb p v (decisions_of (run_with_callbacks cb l (untraced w)).1.log)
  run_with_callbacks_ruling l w p v h = Moves-LastRuled cb (run_with_callbacks-Moves l w) p v h
