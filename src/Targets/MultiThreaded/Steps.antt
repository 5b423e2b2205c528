-- ===== src/Targets/MultiThreaded/Steps.antt =====
-- How many steps the threads of src/targets/multi-threaded.cpp have left, in whatever order they run.
use gravelbox.Base.{
  ℕ, zero, suc, ◌+◌, ◌≡◌, refl, List, [], ◌∷◌, ◌++◌, some, Option-cases, inl, inr, length,
  length-append, Bool-cases, arith,
}
use gravelbox.Targets.MultiThreaded.{
  Job, message, Place, opening, waiting, writing, finished, Worker, Shared, advance, turn,
  is_finished, from, Main, spawning, joining, returned, main_step, State, Who, main_thread, worker,
  step, after,
}
use gravelbox.Targets.MultiThreaded.Turns.{turn-Turned}
use gravelbox.Targets.MultiThreaded.Joined.{from_cases}

-- The steps that a thread, all threads, and `main` still have to take.
abbrev pub steps_of : Job → Place → ℕ
steps_of j opening = length (message j) + 3
steps_of j waiting = length (message j) + 2
steps_of j (writing ws) = length ws + 1
steps_of j finished = 0

abbrev pub threads_steps : List Worker → ℕ
threads_steps [] = 0
threads_steps (w ∷ ws) = steps_of w.job w.place + threads_steps ws

-- To start a thread for each job, and all that these threads do, and to join them.
abbrev pub jobs_steps : List Job → ℕ
jobs_steps [] = 0
jobs_steps (j ∷ js) = length (message j) + 5 + jobs_steps js

abbrev pub main_steps : Main → List Worker → ℕ
main_steps (spawning js) ws = jobs_steps js + length ws + 2
main_steps (joining k) ws = length (from k ws) + 1
main_steps returned ws = 0

abbrev pub steps_left : State → ℕ
steps_left s = main_steps s.main s.threads + threads_steps s.threads

threads_steps-append :
    (v w : List Worker) → threads_steps (v ++ w) ≡ threads_steps v + threads_steps w
threads_steps-append [] w = omega arith
threads_steps-append (x ∷ v) w = omega (arith, threads_steps-append v w)

advance-steps_of :
    (j : Job) (p p' : Place) (m m' : Shared)
    → advance j p m ≡ some (p', m')
    → steps_of j p ≡ steps_of j p' + 1
unfolding advance
advance-steps_of j opening p' m m' h = let e : waiting ≡ p' = cc (h) in rw (← e) (omega arith)
advance-steps_of j waiting p' m m' h = elim (Bool-cases m.locked) [
  | inl y ↦ absurd (ground arith)
  | inr n ↦ let e : writing (message j) ≡ p' = ground arith in rw (← e) (omega arith)
]
advance-steps_of j (writing []) p' m m' h = let e : finished ≡ p' = cc (h) in rw (← e) (omega arith)
advance-steps_of j (writing (w ∷ ws)) p' m m' h =
    let e : writing ws ≡ p' = cc (h) in rw (← e) (omega arith)
advance-steps_of j finished p' m m' h = absurd (cc (h))

turn-threads_steps :
    (i : ℕ) (ws ws' : List Worker) (m m' : Shared)
    → turn i ws m ≡ some (ws', m')
    → threads_steps ws ≡ threads_steps ws' + 1
turn-threads_steps i ws ws' m m' h =
    let t = turn-Turned i ws m ws' m' h in
    let less = advance-steps_of t.job t.here t.there m m' t.moved in
    rw (t.was, t.is)
      (omega (
        arith,
        less,
        threads_steps-append t.before (record { job = t.job; place = t.here } ∷ t.behind),
        threads_steps-append t.before (record { job = t.job; place = t.there } ∷ t.behind),
      ))

turn-length :
    (i : ℕ) (ws ws' : List Worker) (m m' : Shared)
    → turn i ws m ≡ some (ws', m')
    → length ws' ≡ length ws
turn-length i ws ws' m m' h =
    let t = turn-Turned i ws m ws' m' h in
    rw (t.was, t.is)
      (omega (
        arith,
        length-append t.before (record { job = t.job; place = t.here } ∷ t.behind),
        length-append t.before (record { job = t.job; place = t.there } ∷ t.behind),
      ))

length-from :
    (k : ℕ) (v w : List Worker) → length v ≡ length w → length (from k v) ≡ length (from k w)
length-from zero v w e = e
length-from (suc k) [] [] e = refl
length-from (suc k) [] (y ∷ w) e = absurd (omega (arith, e))
length-from (suc k) (x ∷ v) [] e = absurd (omega (arith, e))
length-from (suc k) (x ∷ v) (y ∷ w) e = length-from k v w (omega (arith, e))

length-from_next :
    (k : ℕ) (ws behind : List Worker) (w : Worker)
    → from k ws ≡ w ∷ behind
    → from (suc k) ws ≡ behind
length-from_next zero [] behind w e = absurd (cc (e))
length-from_next zero (v ∷ ws) behind w e = cc (e)
length-from_next (suc k) [] behind w e = absurd (cc (e))
length-from_next (suc k) (v ∷ ws) behind w e = length-from_next k ws behind w e

turn-main_steps :
    (main : Main) (i : ℕ) (ws ws' : List Worker) (m m' : Shared)
    → turn i ws m ≡ some (ws', m')
    → main_steps main ws' ≡ main_steps main ws
turn-main_steps (spawning js) i ws ws' m m' h = omega (arith, turn-length i ws ws' m m' h)
turn-main_steps (joining k) i ws ws' m m' h =
    omega (arith, length-from k ws' ws (turn-length i ws ws' m m' h))
turn-main_steps returned i ws ws' m m' h = refl

main_step-steps_left :
    (main main' : Main) (ws ws' : List Worker)
    → main_step main ws ≡ some (main', ws')
    → main_steps main ws + threads_steps ws ≡ main_steps main' ws' + threads_steps ws' + 1
unfolding main_step
main_step-steps_left (spawning (j ∷ js)) main' ws ws' h =
    let next : List Worker = record { job = j; place = opening } ∷ [] in
    let there : spawning js ≡ main' = cc (h) in
    let same : ws ++ next ≡ ws' = cc (h) in
    rw (← there, ← same) (omega (arith, length-append ws next, threads_steps-append ws next))
main_step-steps_left (spawning []) main' ws ws' h =
    let there : joining 0 ≡ main' = cc (h) in
    let same : ws ≡ ws' = cc (h) in rw (← there, ← same) (omega arith)
main_step-steps_left (joining k) main' ws ws' h = elim (from_cases (from k ws)) [
  | inl e ↦
      let last : some (returned, ws) ≡ some (main', ws') = rw (e, main_step) at h in
      let there : returned ≡ main' = cc (last) in
      let same : ws ≡ ws' = cc (last) in rw (← there, ← same, e) (omega arith)
  | inr (w, behind, e) ↦ elim (Bool-cases (is_finished w.place)) [
    | inl y ↦
        let next : some (joining (k + 1), ws) ≡ some (main', ws') = rw (e, y, main_step) at h in
        let number : k + 1 ≡ suc k = omega arith in
        let there : joining (suc k) ≡ main' = rw (← number) (cc (next)) in
        let same : ws ≡ ws' = cc (next) in
        rw (← there, ← same, e, length-from_next k ws behind w e) (omega arith)
    | inr n ↦ absurd (ground arith)
  ]
]
main_step-steps_left returned main' ws ws' h = absurd (cc (h))

step-steps_left : (who : Who) (s t : State) → step who s ≡ some t → steps_left s ≡ steps_left t + 1
unfolding step
step-steps_left main_thread s t h = elim (Option-cases (main_step s.main s.threads)) [
  | inl e ↦ absurd (ground arith)
  | inr (r, e) ↦
      let same : record s { main = r.0; threads = r.1 } ≡ t = ground arith in
      rw (← same) (main_step-steps_left s.main r.0 s.threads r.1 e)
]
step-steps_left (worker i) s t h = elim (Option-cases (turn i s.threads s.shared)) [
  | inl e ↦ absurd (ground arith)
  | inr (r, e) ↦
      let same : record s { threads = r.0; shared = r.1 } ≡ t = ground arith in
      rw (← same) (
        omega (
          arith,
          turn-main_steps s.main i s.threads r.0 s.shared r.1 e,
          turn-threads_steps i s.threads r.0 s.shared r.1 e,
        ))
]

pub after-steps_left :
    (order : List Who) (s t : State)
    → after order s ≡ some t
    → steps_left s ≡ length order + steps_left t
unfolding after
after-steps_left [] s t h = let same : s ≡ t = cc (h) in rw same (omega arith)
after-steps_left (who ∷ order) s t h = elim (Option-cases (step who s)) [
  | inl e ↦ absurd (ground arith)
  | inr (u, e) ↦ omega (arith, step-steps_left who s u e, after-steps_left order u t (ground arith))
]
