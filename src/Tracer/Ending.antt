-- ===== src/Tracer/Ending.antt =====
-- Whole runs of `run_with_callbacks` in src/trace/tracer.cpp, up to the end of the last thread.
use gravelbox.Base.{
  ℕ, ◌≡◌, ◌≢◌, refl, sym, ap, ◌∙◌, some, List, [], ◌∷◌, ◌++◌, append_assoc, ok, arith, ◌⊎◌, inl,
  inr,
}
use gravelbox.Utils.{Reply, done}
use gravelbox.NatMap
use gravelbox.Tracer.Types.{Event, Tracer, wait_status}
use gravelbox.Tracer.Loop.{Callbacks, on_event, trace_loop}
use gravelbox.Tracer.Run.{Launch, start_trace, run_with_callbacks, untraced}
use gravelbox.Tracer.System.{absent, in_user, in_kernel, Sys, after, Reach, here, next, round}
use gravelbox.Tracer.Mediation.{initial, Reach-find}
use gravelbox.Tracer.Returns.{EndsWith, on_event_death, trace_loop_next}

module _ {W : Type 0} (cb : Callbacks W) where
  -- What `waitpid` reported on the way.
  unfoldable pub events_of : {s u : Sys W} → Reach cb s u → List (Reply Event)
  events_of here = []
  events_of (next r (round e d h q)) = events_of r ++ done e ∷ []

  -- A way of the threads is what the loop goes through on the events of the way.
  pub trace_loop-Reach :
      {s u : Sys W} (r : Reach cb s u) (rest : List (Reply Event))
      → trace_loop cb (events_of r ++ rest) s.tracer ≡ trace_loop cb rest u.tracer
  unfolding events_of after
  trace_loop-Reach here rest = refl
  trace_loop-Reach {s} (next {u} r (round e d h q)) rest =
      rw (append_assoc (events_of r) (done e ∷ []) rest) (
        trace_loop-Reach r (done e ∷ rest)
        ∙ trace_loop_next cb e rest u.tracer h
        ∙ ap (λ (v : Sys W). trace_loop cb rest v.tracer) (sym q))

  start_trace_events :
      (l : Launch) (events : List (Reply Event)) (t : Tracer W)
      → start_trace (record l { events = events }) t ≡ start_trace l t
  unfolding start_trace
  start_trace_events l events t = refl

  run_started :
      (l : Launch) (t : Tracer W)
      → (start_trace l t).0 ≡ ok tt
      → run_with_callbacks cb l t ≡ trace_loop cb l.events (start_trace l t).1
  unfolding run_with_callbacks
  run_started l t h = rw h refl

  on_event-trace_loop :
      (e : Event) (rest : List (Reply Event)) (t : Tracer W) (code : ℕ)
      → (on_event cb e t).0 ≡ ok (some code)
      → (trace_loop cb (done e ∷ rest) t).0 ≡ ok (some code)
  unfolding trace_loop
  on_event-trace_loop e rest t code h = ground arith

module _ {W : Type 0} (cb : Callbacks W) (l : Launch) (child : ℕ) (w : W)
    (forked : l.forked ≡ done child) (started : (start_trace l (untraced w)).0 ≡ ok tt) {u : Sys W}
    (way : Reach cb (initial l child w) u) (e : Event) (code : ℕ)
    (ends : EndsWith (wait_status e.wstatus) code) where
  last-on_event :
      ((q : ℕ) → q ≢ e.pid → u.phase q ≡ absent) → (on_event cb e u.tracer).0 ≡ ok (some code)
  last-on_event alone = (on_event_death cb e u.tracer code ends).1 λ q apart.
      let known = Reach-find l child w forked started cb way q in rw (alone q apart) at known

  -- From a child that was started, whatever stops the kernel reports: where a thread ends and no other
  -- thread is left, the run returns, with that thread's code.
  pub run_with_callbacks_ends :
      (rest : List (Reply Event))
      → ((q : ℕ) → q ≢ e.pid → u.phase q ≡ absent)
      → (run_with_callbacks cb
          (record l { events = events_of cb way ++ done e ∷ rest })
          (untraced w)).0
        ≡ ok (some code)
  run_with_callbacks_ends rest alone =
      let events = events_of cb way ++ done e ∷ rest in
      let same = start_trace_events cb l events (untraced w) in
      rw (run_started cb (record l { events = events }) (untraced w) (rw same started)) (
        rw same (
          rw (trace_loop-Reach cb way (done e ∷ rest))
            (on_event-trace_loop cb e rest u.tracer code (last-on_event alone))))

  -- From a child that was started, whatever stops the kernel reports: where a thread ends and another is
  -- in user space or in the kernel, the loop goes on.
  on_event_goes_on :
      (q : ℕ)
      → q ≢ e.pid
      → (u.phase q ≡ in_user) ⊎ (u.phase q ≡ in_kernel)
      → (on_event cb e u.tracer).0 ≢ ok (some code)
  unfolding NatMap.find
  on_event_goes_on q apart alive = λ h.
      let gone = (on_event_death cb e u.tracer code ends).0 h q apart in
      let known = Reach-find l child w forked started cb way q in
      elim alive [ inl a ↦ ground (arith, rw a at known) | inr a ↦ ground (arith, rw a at known) ]
