-- ===== src/Tracer/Seen.antt =====
-- What a reference monitor sees of a state of src/trace/tracer.cpp, and of the entry of a call.
use gravelbox.Base.{
  ℕ, ◌≡◌, refl, Bool, true, false, Option, none, some, List, [], ◌∷◌, ◌==◌, if◌then◌else◌,
  Outcome-cases, ok, ◌⊎◌, inl, inr, arith,
}
use mathlib.Core.Path.{fun_ext}
use gravelbox.Utils.{Reply-cases, SyscallArgs}
use gravelbox.NatMap
use gravelbox.NatMap.{NatMap, find-assign, find-erase}
use gravelbox.Tracer.Types.{ThreadStatus, Event, Action, inspected, decided, Tracer, syscall_args}
use gravelbox.Tracer.Loop.{Callbacks, on_entry, enter_verdict, report_denial}
use gravelbox.Tracer.Monitor.{Decision, Monitor, in_call}

-- The decisions in a history.
unfoldable pub decisions_of : List Action → List Decision
decisions_of [] = []
decisions_of (decided p args v ∷ l) =
    record { thread = p; call = args; verdict = v } ∷ decisions_of l
decisions_of (_ ∷ l) = decisions_of l

-- What the monitor has where the loop has `t`: the table as a function, and the decisions.
abbrev pub seen : {W : Type 0} → Tracer W → Monitor
seen t = record { at = λ p. NatMap.find p t.thread_status; decisions = decisions_of t.log }

module _ {W : Type 0} where
  -- The table and the decisions of a state are these.
  abbrev pub Has : Tracer W → NatMap ThreadStatus → List Decision → Type 0
  Has t m ds = (t.thread_status ≡ m) × (decisions_of t.log ≡ ds)

  pub seen-Has :
      (t : Tracer W) (m : NatMap ThreadStatus) (ds : List Decision)
      → Has t m ds
      → seen t ≡ record { at = λ p. NatMap.find p m; decisions = ds }
  seen-Has t m ds (a, b) = rw (a, b) refl

pub find-moved :
    (p : ℕ) (st : ThreadStatus) (m : NatMap ThreadStatus)
    → ◌≡◌ {A = ℕ → Option ThreadStatus}
        (λ q. NatMap.find q (NatMap.assign p st m))
        (λ q. if p == q then some st else NatMap.find q m)
find-moved p st m = fun_ext (λ q. find-assign p q st m)

pub find-removed :
    (p : ℕ) (m : NatMap ThreadStatus)
    → ◌≡◌ {A = ℕ → Option ThreadStatus}
        (λ q. NatMap.find q (NatMap.erase p m))
        (λ q. if p == q then none else NatMap.find q m)
find-removed p m = fun_ext (λ q. find-erase p q m)

module _ {W : Type 0} (cb : Callbacks W) (e : Event) where
  -- After the verdict: the mark is set, or the thread died before that.
  enter_verdict-Has :
      (v : Bool) (t : Tracer W)
      → let t' = (enter_verdict cb e v t).1 in
        Has t' (NatMap.assign e.pid (in_call v) t.thread_status) (decisions_of t.log)
        ⊎ ((v ≡ false) × Has t' t.thread_status (decisions_of t.log))
  unfolding enter_verdict decisions_of
  enter_verdict-Has true t = inl (refl, refl)
  enter_verdict-Has false t = ground arith

  pub report_denial-Has :
      (t : Tracer W) → Has (report_denial cb e t).1 t.thread_status (decisions_of t.log)
  unfolding report_denial decisions_of
  report_denial-Has t = ground arith

module _ {W : Type 0} (cb : Callbacks W) (e : Event) where
  -- A verdict on a call of the thread, which then has its new mark or died before that.
  abbrev pub Ruled : Tracer W → Tracer W → Type 0
  Ruled t t' =
      (args : SyscallArgs) × (v : Bool) × ((cb.syscall_callback args
          (cb.pid_callback e.pid t.world)).0
        ≡ ok v)
      × (let ds = record { thread = e.pid; call = args; verdict = v } ∷ decisions_of t.log in
          Has t' (NatMap.assign e.pid (in_call v) t.thread_status) ds
          ⊎ ((v ≡ false) × Has t' t.thread_status ds))

  pub on_entry-Has :
      (t : Tracer W)
      → let t' = (on_entry cb e t).1 in Has t' t.thread_status (decisions_of t.log) ⊎ Ruled t t'
  unfolding on_entry decisions_of
  on_entry-Has t = elim (Reply-cases e.info) [
    | inr (n, h) ↦ inl (ground arith)
    | inl (info, h) ↦
        let args = syscall_args info in
        let w = cb.pid_callback e.pid t.world in
        elim (Outcome-cases (cb.syscall_callback args w).0) [
          | inr (inl (x, k)) ↦ inl (ground arith)
          | inr (inr k) ↦ inl (ground arith)
          | inl (v, k) ↦
              let t2 : Tracer W = record t {
                world = (cb.syscall_callback args w).1;
                log = decided e.pid args v ∷ inspected e.pid ∷ t.log;
              } in
              let entered : ((on_entry cb e t).1 ≡ (enter_verdict cb e v t2).1)
                  ⊎ Has (on_entry cb e t).1 t.thread_status (decisions_of t.log) =
                ground arith in
              elim entered [
                | inr same ↦ inl same
                | inl q ↦ inr (args, v, k, rw q (enter_verdict-Has cb e v t2))
              ]
        ]
  ]
