-- ===== src/Tracer/Soundness.antt =====
-- Invariants of the tracer of src/trace/tracer.cpp beside the threads that it traces.
use gravelbox.Base.{
  ℕ, ◌≡◌, ◌≢◌, refl, true, Option, none, some, List, ◌∷◌, ◌⊎◌, inl, inr, ◌==◌, ltb, ok, Bool-cases,
  ==_iff, arith,
}
use gravelbox.NatMap
use gravelbox.NatMap.{find-assign, find-erase}
use gravelbox.Tracer.Types.{
  sigtrap_syscall, ThreadStatus, userspace, kernelspace_allow, kernelspace_deny, WaitStatus, exited,
  signaled, stopped, other, wait_status, Event, Tracer, Action, resumed_with,
}
use gravelbox.Tracer.Log.{Standing, free, standing, may_resume, Mediated, resumes}
use gravelbox.Tracer.Frame.{View-on_status}
use gravelbox.Tracer.Own.{
  on_stop-Entered, on_stop-left, on_stop-other, on_stop-new, on_status_stopped, Mediated-on_stop,
  resumes-on_stop,
}
use gravelbox.Tracer.Loop.{Callbacks, on_event, on_status, on_stop}
use gravelbox.Tracer.System.{
  Phase, absent, in_user, in_kernel, dying, Delivers, let_go, next_phase, Sys, after, round, Reach,
  here, next,
}

-- What the tracer holds of a thread fits where the kernel has the thread.
abbrev pub Agrees : Phase → Option ThreadStatus → Standing → Type 0
Agrees absent st sd = (st ≡ none) × (sd ≡ free)
Agrees in_user st sd = (st ≡ some userspace) × (sd ≡ free)
Agrees in_kernel st sd =
    ((st ≡ some kernelspace_allow) ⊎ (st ≡ some kernelspace_deny)) × (sd ≡ free)
Agrees dying st sd = Unit

module _ {W : Type 0} where
  abbrev pub AgreesAt : Tracer W → Phase → ℕ → Type 0
  AgreesAt t ph p = Agrees ph (NatMap.find p t.thread_status) (standing p t.log)

  pub record IsSound (s : Sys W) : Type 0 where
    pub agrees : (p : ℕ) → AgreesAt s.tracer (s.phase p) p
    pub mediated : Mediated s.tracer.log

  module _ (cb : Callbacks W) (e : Event) (t : Tracer W) where
    -- What the tracer knows of a thread that it lets go.
    find-let_go :
        (ph : Phase) (sig : ℕ)
        → Delivers ph (stopped sig)
        → AgreesAt t ph e.pid
        → (on_stop cb e sig t).0 ≡ ok tt
        → Agrees (let_go ph sig) (NatMap.find e.pid (on_stop cb e sig t).1.thread_status) free
    unfolding let_go
    find-let_go absent sig d a h = rw d (
        rw (on_stop-new cb e t a.0)
          (ground (arith, find-assign e.pid e.pid userspace t.thread_status)))
    find-let_go in_user sig d a h = elim (Bool-cases (sig == sigtrap_syscall)) [
      | inl y ↦ rw y (
          let p = (==_iff sig sigtrap_syscall).0 y in
          ground (arith, on_stop-Entered cb e t a.0 (rw p at h), p))
      | inr n ↦ rw n (rw (on_stop-other cb e t sig a.0 (ground arith)) (a.0, refl))
    ]
    find-let_go in_kernel sig d a h = elim (Bool-cases (sig == sigtrap_syscall)) [
      | inl y ↦ rw y (
          let p = (==_iff sig sigtrap_syscall).0 y in
          ground (arith, on_stop-left cb e t a.0 a.1 (rw p at h), p))
      | inr n ↦ rw n (
          ground (
            arith,
            a,
            on_stop-other cb e t sig {st = kernelspace_allow},
            on_stop-other cb e t sig {st = kernelspace_deny},
          ))
    ]
    find-let_go dying sig d a h = elim d [ ]

    pub let_go-resumes :
        (sig : ℕ)
        → ltb
            (resumes e.pid t.log)
            (resumes e.pid (resumed_with e.pid 0 ∷ (on_stop cb e sig t).1.log))
          ≡ true
    unfolding resumes
    let_go-resumes sig = ground (arith, resumes-on_stop cb e t sig)

    standing-let_go : (l : List Action) → standing e.pid (resumed_with e.pid 0 ∷ l) ≡ free
    unfolding standing
    standing-let_go l = ground arith

    -- The thread of the event itself.
    own-Agrees :
        (ph : Phase) (ws : WaitStatus)
        → Delivers ph ws
        → AgreesAt t ph e.pid
        → (on_status cb e ws t).0 ≡ ok none
        → AgreesAt
            (on_status cb e ws t).1
            (next_phase ph ws
              (ltb (resumes e.pid t.log) (resumes e.pid (on_status cb e ws t).1.log)))
            e.pid
    unfolding next_phase
    own-Agrees ph (stopped sig) d a h = elim (on_status_stopped cb e t sig h) [
      | inl (k, q) ↦ rw q (rw (let_go-resumes sig) (rw standing-let_go (find-let_go ph sig d a k)))
      | inr q ↦ rw q (rw (resumes-on_stop cb e t sig) (ground arith))
    ]
    own-Agrees ph (exited c) d a h =
        unfold on_status standing in ground (arith, find-erase e.pid e.pid t.thread_status)
    own-Agrees ph (signaled c) d a h =
        unfold on_status standing in ground (arith, find-erase e.pid e.pid t.thread_status)
    own-Agrees ph other d a h = unfold on_status in a

    stopped-may_resume :
        (ph : Phase) (sig : ℕ)
        → Delivers ph (stopped sig)
        → AgreesAt t ph e.pid
        → (on_stop cb e sig t).0 ≡ ok tt
        → may_resume (standing e.pid (on_stop cb e sig t).1.log) ≡ true
    unfolding may_resume
    stopped-may_resume absent sig d a h = rw d (rw (on_stop-new cb e t a.0) (rw a.1))
    stopped-may_resume in_user sig d a h = elim (Bool-cases (sig == sigtrap_syscall)) [
      | inl y ↦
          let p = (==_iff sig sigtrap_syscall).0 y in
          ground (arith, on_stop-Entered cb e t a.0 (rw p at h), p)
      | inr n ↦ rw (on_stop-other cb e t sig a.0 (ground arith)) (rw a.1)
    ]
    stopped-may_resume in_kernel sig d a h = elim (Bool-cases (sig == sigtrap_syscall)) [
      | inl y ↦
          let p = (==_iff sig sigtrap_syscall).0 y in
          ground (arith, on_stop-left cb e t a.0 a.1 (rw p at h), p)
      | inr n ↦ ground (
        arith,
        a,
        on_stop-other cb e t sig {st = kernelspace_allow},
        on_stop-other cb e t sig {st = kernelspace_deny},
      )
    ]
    stopped-may_resume dying sig d a h = elim d [ ]

    Mediated-on_status :
        (ph : Phase) (ws : WaitStatus)
        → Delivers ph ws
        → AgreesAt t ph e.pid
        → (on_status cb e ws t).0 ≡ ok none
        → Mediated t.log
        → Mediated (on_status cb e ws t).1.log
    Mediated-on_status ph (stopped sig) d a h m = elim (on_status_stopped cb e t sig h) [
      | inl (k, q) ↦ rw q (stopped-may_resume ph sig d a k, Mediated-on_stop cb e t sig m)
      | inr q ↦ rw q (Mediated-on_stop cb e t sig m)
    ]
    Mediated-on_status ph (exited c) d a h m = unfold on_status in m
    Mediated-on_status ph (signaled c) d a h m = unfold on_status in m
    Mediated-on_status ph other d a h m = unfold on_status in m

  after-IsSound :
      (cb : Callbacks W) (e : Event) (s : Sys W)
      → Delivers (s.phase e.pid) (wait_status e.wstatus)
      → (on_event cb e s.tracer).0 ≡ ok none
      → IsSound s
      → IsSound (after cb e s)
  unfolding after on_event
  after-IsSound cb e s d h i = record {
    agrees = λ p. elim (Bool-cases (e.pid == p)) [
      | inl y ↦ rw y (
          rw (← (==_iff e.pid p).0 y)
            (own-Agrees cb e s.tracer (s.phase e.pid) (wait_status e.wstatus) d (i.agrees e.pid) h))
      | inr n ↦ rw n (
          let apart : e.pid ≢ p = ground arith in
          let same =
            View-on_status cb e p apart s.tracer (wait_status e.wstatus)
              (record { known = refl; stands = refl }) in
          rw same.known (rw same.stands (i.agrees p)))
    ];
    mediated =
        Mediated-on_status cb e s.tracer (s.phase e.pid) (wait_status e.wstatus) d (i.agrees e.pid)
          h i.mediated;
  }

  -- Whatever the threads do, the tracer's view of each of them stays right, and no thread is let go in
  -- a system call that was not decided, or was refused and not cancelled.
  pub Reach-IsSound : (cb : Callbacks W) {s u : Sys W} → IsSound s → Reach cb s u → IsSound u
  Reach-IsSound cb i here = i
  Reach-IsSound cb i (next r (round e d h q)) =
      rw q (after-IsSound cb e _ d h (Reach-IsSound cb i r))
