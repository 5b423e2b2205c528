-- ===== src/Tracer/Entries.antt =====
-- The entries of system calls in whole runs of the loop of src/trace/tracer.cpp: where the kernel lets a
-- thread go into a call, as its phase of Tracer.System says, and not as the loop marks it.
use gravelbox.Base.{
  ℕ, ◌≡◌, ◌≢◌, refl, Bool, true, false, ◌&&◌, Option, none, some, List, [], ◌∷◌, ◌⊎◌, inl, inr,
  ◌==◌, ltb, if◌then◌else◌, Outcome, ok, throw, terminate, Bool-cases, Outcome-cases, ==_iff, arith,
}
use gravelbox.Utils.{Reply, done, errno, Reply-cases}
use gravelbox.NatMap
use gravelbox.NatMap.{find-assign, find-erase}
use gravelbox.Tracer.Types.{
  sigtrap_syscall, minus, ThreadStatus, userspace, kernelspace_allow, kernelspace_deny, WaitStatus,
  exited, signaled, stopped, other, wait_status, SyscallInfo, syscall_args, Regs, Event, Tracer,
  Action, inspected, decided, read_regs, wrote_regs, resumed_with,
}
use gravelbox.Tracer.Log.{resumes}
use gravelbox.Tracer.Frame.{View-on_status}
use gravelbox.Tracer.Own.{on_stop-Entered, on_status_stopped, resumes-on_stop}
use gravelbox.Tracer.Soundness.{let_go-resumes}
use gravelbox.Tracer.Loop.{
  Callbacks, on_event, on_status, on_stop, on_syscall_stop, on_entry, enter_verdict, report_denial,
}
use gravelbox.Tracer.System.{
  Phase, absent, in_user, in_kernel, dying, let_go, next_phase, Sys, after,
}

abbrev pub goes_on : Outcome (Option ℕ) → Bool
goes_on (ok none) = true
goes_on _ = false

abbrev is_in_user : Phase → Bool
is_in_user in_user = true
is_in_user _ = false

abbrev is_in_kernel : Phase → Bool
is_in_kernel in_kernel = true
is_in_kernel _ = false

-- The mark that fits a phase, whatever stops are reported.
abbrev pub Fits : Phase → Option ThreadStatus → Type 0
Fits absent st = st ≡ none
Fits in_user st = (st ≡ none) ⊎ (st ≡ some userspace)
Fits in_kernel st = (st ≡ some kernelspace_allow) ⊎ (st ≡ some kernelspace_deny)
Fits dying st = Unit

module _ {W : Type 0} where
  abbrev pub AllFit : Sys W → Type 0
  AllFit s = (p : ℕ) → Fits (s.phase p) (NatMap.find p s.tracer.thread_status)

  module _ (cb : Callbacks W) where
    -- The rounds of the loop that it goes on from: the state before, and the event.
    unfoldable pub rounds : List (Reply Event) → Sys W → List (Sys W × Event)
    unfolding after
    rounds [] s = []
    rounds (errno n ∷ rest) s = []
    rounds (done e ∷ rest) s =
        let more = rounds rest (after cb e s) in
        if goes_on (on_event cb e s.tracer).0 then (s, e) ∷ more else []

    -- In this round, the thread is let go into a system call.
    unfoldable pub enters_call : Sys W → Event → Bool
    unfolding after
    enters_call s e = is_in_user (s.phase e.pid) && is_in_kernel ((after cb e s).phase e.pid)

    -- What was done for the verdict: nothing but to let the thread go, or the call was cancelled before
    -- by the number -1, and the other registers were kept.
    abbrev pub StartsAs : Bool → Event → SyscallInfo → List Action → List Action → Type 0
    StartsAs true e i before after_ =
        after_
        ≡ resumed_with e.pid 0 ∷ decided e.pid (syscall_args i) true ∷ inspected e.pid ∷ before
    StartsAs false e i before after_ =
        (r : Regs) × (e.regs ≡ done r)
        × (after_
            ≡ resumed_with e.pid 0
              ∷ wrote_regs e.pid (record r { orig_rax = minus 1 })
              ∷ read_regs e.pid
              ∷ decided e.pid (syscall_args i) false
              ∷ inspected e.pid
              ∷ before)

    -- The policy was asked in this round about the call that the kernel reports, with the thread passed
    -- on, and its answer was carried out.
    abbrev pub Asked : Sys W → Event → Type 0
    Asked s e =
        (i : SyscallInfo) × (v : Bool) × (e.info ≡ done i)
        × ((cb.syscall_callback (syscall_args i) (cb.pid_callback e.pid s.tracer.world)).0 ≡ ok v)
        × StartsAs v e i s.tracer.log (on_event cb e s.tracer).1.log

    abbrev pub Mediates : Sys W × Event → Type 0
    Mediates (s, e) = elim (enters_call s e) [ true ↦ Asked s e | false ↦ Unit ]

module _ {W : Type 0} (cb : Callbacks W) (e : Event) (t : Tracer W) where
  find-let_go :
      (ph : Phase) (sig : ℕ)
      → Fits ph (NatMap.find e.pid t.thread_status)
      → (on_stop cb e sig t).0 ≡ ok tt
      → Fits (let_go ph sig) (NatMap.find e.pid (on_stop cb e sig t).1.thread_status)
  unfolding let_go on_stop on_syscall_stop report_denial
  find-let_go absent sig f h = ground (arith, find-assign e.pid e.pid userspace t.thread_status)
  find-let_go in_user sig f h =
      ground (arith, find-assign e.pid e.pid userspace t.thread_status, on_stop-Entered cb e t)
  find-let_go in_kernel sig f h = ground (arith, find-assign e.pid e.pid userspace t.thread_status)
  find-let_go dying sig f h = tt

  own-Fits :
      (ph : Phase) (ws : WaitStatus)
      → Fits ph (NatMap.find e.pid t.thread_status)
      → (on_status cb e ws t).0 ≡ ok none
      → Fits
          (next_phase ph ws (ltb (resumes e.pid t.log) (resumes e.pid (on_status cb e ws t).1.log)))
          (NatMap.find e.pid (on_status cb e ws t).1.thread_status)
  unfolding next_phase
  own-Fits ph (stopped sig) f h = elim (on_status_stopped cb e t sig h) [
    | inl (k, q) ↦ rw q (rw (let_go-resumes cb e t sig) (find-let_go ph sig f k))
    | inr q ↦ rw q (rw (resumes-on_stop cb e t sig) (ground arith))
  ]
  own-Fits ph (exited c) f h =
      unfold on_status in ground (arith, find-erase e.pid e.pid t.thread_status)
  own-Fits ph (signaled c) f h =
      unfold on_status in ground (arith, find-erase e.pid e.pid t.thread_status)
  own-Fits ph other f h = unfold on_status in f

  -- At the stop of a call that a thread in user space makes, where the thread is let go.
  entry-Asked :
      NatMap.find e.pid t.thread_status ≡ none ⊎ NatMap.find e.pid t.thread_status ≡ some userspace
      → wait_status e.wstatus ≡ stopped sigtrap_syscall
      → (on_event cb e t).0 ≡ ok none
      → ltb (resumes e.pid t.log) (resumes e.pid (on_event cb e t).1.log) ≡ true
      → (ph : ℕ → Phase) → Asked cb (record { tracer = t; phase = ph }) e
  unfolding on_event on_status on_stop on_syscall_stop on_entry enter_verdict resumes
  entry-Asked f stop h resumed ph = elim (Reply-cases e.info) [
    | inr (n, k) ↦ absurd (ground arith)
    | inl (i, k) ↦
        elim (Outcome-cases
          (cb.syscall_callback (syscall_args i) (cb.pid_callback e.pid t.world)).0) [
            | inr (inl (x, a)) ↦ absurd (ground arith)
            | inr (inr a) ↦ absurd (ground arith)
            | inl (true, a) ↦ (i, true, k, a, ground arith)
            | inl (false, a) ↦ elim (Reply-cases e.regs) [
              | inr (n, g) ↦ absurd (ground arith)
              | inl (r, g) ↦ (i, false, k, a, (r, g, ground arith))
            ]
          ]
  ]

enters_cases :
    (ph : Phase) (ws : WaitStatus) (resumed : Bool)
    → is_in_user ph && is_in_kernel (next_phase ph ws resumed) ≡ true
    → (ph ≡ in_user) × (ws ≡ stopped sigtrap_syscall) × (resumed ≡ true)
unfolding next_phase let_go
enters_cases in_user (stopped sig) true h =
    let same : sig ≡ sigtrap_syscall = ground arith in (refl, rw same refl, refl)
enters_cases in_user (stopped sig) false h = cc
enters_cases in_user (exited c) resumed h = cc
enters_cases in_user (signaled c) resumed h = cc
enters_cases in_user other resumed h = cc
enters_cases absent ws resumed h = cc
enters_cases in_kernel ws resumed h = cc
enters_cases dying ws resumed h = cc

pub goes_on-ok : (r : Outcome (Option ℕ)) → goes_on r ≡ true → r ≡ ok none
goes_on-ok (ok none) h = refl
goes_on-ok (ok (some c)) h = cc
goes_on-ok (throw x) h = cc
goes_on-ok terminate h = cc

module _ {W : Type 0} (cb : Callbacks W) where
  pub after-AllFit :
      (e : Event) (s : Sys W)
      → (on_event cb e s.tracer).0 ≡ ok none
      → AllFit s
      → AllFit (after cb e s)
  unfolding after on_event
  after-AllFit e s h fit p = elim (Bool-cases (e.pid == p)) [
    | inl y ↦ rw y (
        rw (← (==_iff e.pid p).0 y)
          (own-Fits cb e s.tracer (s.phase e.pid) (wait_status e.wstatus) (fit e.pid) h))
    | inr n ↦ rw n (
        let apart : e.pid ≢ p = ground arith in
        let same =
          View-on_status cb e p apart s.tracer (wait_status e.wstatus)
            (record { known = refl; stands = refl }) in
        rw same.known (fit p))
  ]

  enters_call-cases :
      (s : Sys W) (e : Event)
      → enters_call cb s e ≡ true
      → (s.phase e.pid ≡ in_user)
        × (wait_status e.wstatus ≡ stopped sigtrap_syscall)
        × (ltb (resumes e.pid s.tracer.log) (resumes e.pid (on_event cb e s.tracer).1.log) ≡ true)
  unfolding enters_call after
  enters_call-cases s e y =
      let own : e.pid == e.pid ≡ true = (==_iff e.pid e.pid).1 refl in
      enters_cases (s.phase e.pid) (wait_status e.wstatus)
        (ltb (resumes e.pid s.tracer.log) (resumes e.pid (on_event cb e s.tracer).1.log))
        (rw own at y)

  pub round-Mediates :
      (e : Event) (s : Sys W) → (on_event cb e s.tracer).0 ≡ ok none → AllFit s → Mediates cb (s, e)
  round-Mediates e s h fit = elim (Bool-cases (enters_call cb s e)) [
    | inr n ↦ rw (Mediates, n) tt
    | inl y ↦
        let (home, stop, resumed) = enters_call-cases s e y in
        rw (Mediates, y) (entry-Asked cb e s.tracer (rw home at (fit e.pid)) stop h resumed s.phase)
  ]
