-- ===== src/Tracer/Returns.antt =====
-- When and with what the loop of src/trace/tracer.cpp returns.
use gravelbox.Base.{
  ℕ, ◌+◌, ◌≡◌, ◌≢◌, refl, ap, true, none, some, List, ◌∷◌, [], ◌++◌, ◌⊎◌, inl, inr, if◌then◌else◌,
  ok, ◌↔◌, arith,
}
use gravelbox.Utils.{Reply, done, errno}
use gravelbox.NatMap
use gravelbox.NatMap.{NatMap, find-erase, none-is_empty, is_empty-find}
use gravelbox.Tracer.Types.{
  WaitStatus, exited, signaled, stopped, other, wait_status, Event, Tracer,
}
use gravelbox.Tracer.Loop.{Callbacks, on_event, on_status, trace_loop}

-- What a thread's end gives as an exit code.
abbrev pub EndsWith : WaitStatus → ℕ → Type 0
EndsWith (exited c) code = code ≡ c
EndsWith (signaled sig) code = code ≡ 128 + sig
EndsWith _ code = ⊥

module _ {W : Type 0} (cb : Callbacks W) where
  -- An event that ends the loop is the end of a thread, after which no thread is known.
  on_status-some :
      (e : Event) (t : Tracer W) (ws : WaitStatus) (code : ℕ)
      → (on_status cb e ws t).0 ≡ ok (some code)
      → EndsWith ws code × (NatMap.is_empty (on_status cb e ws t).1.thread_status ≡ true)
  unfolding on_status
  on_status-some e t (exited c) code h = ground arith
  on_status-some e t _ code h = ground arith

  -- The loop has gone through `before`, and returned at `last`.
  pub record Returned (events : List (Reply Event)) (t : Tracer W) (code : ℕ) : Type 0 where
    pub before : List (Reply Event)
    pub last : Event
    pub rest : List (Reply Event)
    pub splits : events ≡ before ++ done last ∷ rest
    pub went_on : (trace_loop cb before t).0 ≡ ok none
    pub ended : EndsWith (wait_status last.wstatus) code
    pub none_left : (p : ℕ) → NatMap.find p (trace_loop cb events t).1.thread_status ≡ none

  -- A round that does not end the loop.
  pub trace_loop_next :
      (e : Event) (rest : List (Reply Event)) (t : Tracer W)
      → (on_event cb e t).0 ≡ ok none
      → trace_loop cb (done e ∷ rest) t ≡ trace_loop cb rest (on_event cb e t).1
  unfolding trace_loop
  trace_loop_next e rest t h = ground arith

  trace_loop_round :
      (e : Event) (rest : List (Reply Event)) (t : Tracer W) (code : ℕ)
      → (trace_loop cb (done e ∷ rest) t).0 ≡ ok (some code)
      → (((on_event cb e t).0 ≡ ok (some code))
          × ((trace_loop cb (done e ∷ rest) t).1 ≡ (on_event cb e t).1))
        ⊎ ((on_event cb e t).0 ≡ ok none)
  unfolding trace_loop
  trace_loop_round e rest t code h = ground arith

  Returned-here :
      (e : Event) (rest : List (Reply Event)) (t : Tracer W) (code : ℕ)
      → (on_event cb e t).0 ≡ ok (some code)
      → (trace_loop cb (done e ∷ rest) t).1 ≡ (on_event cb e t).1
      → Returned (done e ∷ rest) t code
  unfolding on_event
  Returned-here e rest t code h q =
      let ends = on_status-some e t (wait_status e.wstatus) code h in
      record {
        before = [];
        last = e;
        rest = rest;
        splits = refl;
        went_on = unfold trace_loop in refl;
        ended = ends.0;
        none_left = λ p. rw q (is_empty-find _ p ends.1);
      }

  Returned-next :
      (e : Event) (rest : List (Reply Event)) (t : Tracer W) (code : ℕ)
      → (on_event cb e t).0 ≡ ok none
      → Returned rest (on_event cb e t).1 code
      → Returned (done e ∷ rest) t code
  Returned-next e rest t code h r = record {
    before = done e ∷ r.before;
    last = r.last;
    rest = r.rest;
    splits = ap (λ l. done e ∷ l) r.splits;
    went_on = rw (trace_loop_next e r.before t h) r.went_on;
    ended = r.ended;
    none_left = λ p. rw (trace_loop_next e rest t h) (r.none_left p);
  }

  -- If the loop returns a code, the code is that of the last event it took: the end of a thread after
  -- which no thread is known. (It need not be the first thread.)
  pub trace_loop-Returned :
      (events : List (Reply Event)) (t : Tracer W) (code : ℕ)
      → (trace_loop cb events t).0 ≡ ok (some code)
      → Returned events t code
  trace_loop-Returned [] t code h = unfold trace_loop in (cc)
  trace_loop-Returned (errno n ∷ rest) t code h = unfold trace_loop in (cc)
  trace_loop-Returned (done e ∷ rest) t code h = elim (trace_loop_round e rest t code h) [
    | inl (k, q) ↦ Returned-here e rest t code k q
    | inr k ↦
        Returned-next e rest t code k
          (trace_loop-Returned rest (on_event cb e t).1 code (rw (trace_loop_next e rest t k) at h))
  ]

  on_status_death :
      (e : Event) (t : Tracer W) (ws : WaitStatus) (code : ℕ)
      → EndsWith ws code
      → (on_status cb e ws t).0
        ≡ ok (if NatMap.is_empty (NatMap.erase e.pid t.thread_status) then some code else none)
  unfolding on_status
  on_status_death e t (exited c) code h = rw h
  on_status_death e t (signaled sig) code h = rw h
  on_status_death e t (stopped sig) code h = elim h [ ]
  on_status_death e t other code h = elim h [ ]

  -- The end of a thread ends the loop, with that thread's code, exactly when no other thread is known,
  -- whether or not it is the thread that was started first.
  pub on_event_death :
      (e : Event) (t : Tracer W) (code : ℕ)
      → EndsWith (wait_status e.wstatus) code
      → ((on_event cb e t).0 ≡ ok (some code))
        ↔ ((q : ℕ) → q ≢ e.pid → NatMap.find q t.thread_status ≡ none)
  unfolding on_event
  on_event_death e t code h =
      let m = t.thread_status in
      (
        λ k q apart. ground (
          arith,
          on_status_death e t (wait_status e.wstatus) code h,
          find-erase e.pid q m,
          is_empty-find (NatMap.erase e.pid m) q,
        ),
        λ none_else. rw (on_status_death e t (wait_status e.wstatus) code h) (
            rw (
              none-is_empty (NatMap.erase e.pid m)
                (λ q. ground (arith, find-erase e.pid q m, none_else q)))),
      )
