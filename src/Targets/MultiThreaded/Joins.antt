-- ===== src/Targets/MultiThreaded/Joins.antt =====
-- What src/targets/multi-threaded.cpp has written when `main` returns.
use mathlib.Core.List.{Perm}
use mathlib.Core.List.Perm
use gravelbox.Base.{
  suc, ◌+◌, ◌≡◌, refl, sym, ◌∙◌, List, [], ◌∷◌, ◌++◌, append_assoc, append-nil, Bool, true, false,
  some, Option-cases, inl, inr, All, Bool-cases, arith,
}
use gravelbox.Targets.MultiThreaded.{
  Job, opening, Worker, Shared, turn, is_finished, from, Main, spawning, joining, returned,
  main_step, State, Who, main_thread, worker, step, start, after,
}
use gravelbox.Targets.MultiThreaded.Turns.{
  IsFinished, holders, all_left, all_entered, jobs, holders-append, all_left-append,
  all_entered-append, jobs-append,
}
use gravelbox.Targets.MultiThreaded.Whole.{as_number, messages, AllOrderly, turn-AllOrderly}
use gravelbox.Targets.MultiThreaded.Joined.{
  to_spawn, Joined, turn-jobs, turn-Joined, join_next, join_last, from_cases,
  is_finished-IsFinished,
}

pub record Sound (all : List Job) (s : State) : Type 0 where
  pub orderly : AllOrderly s.threads s.shared
  pub every : jobs s.threads ++ to_spawn s.main ≡ all
  pub joined : Joined s.main s.threads

spawn-AllOrderly :
    (ws : List Worker) (j : Job) (m : Shared)
    → AllOrderly ws m
    → AllOrderly (ws ++ record { job = j; place = opening } ∷ []) m
spawn-AllOrderly ws j m o =
    let next : List Worker = record { job = j; place = opening } ∷ [] in
    rw
      (
        holders-append ws next,
        all_left-append ws next,
        all_entered-append ws next,
        append-nil (all_left ws),
        append-nil (all_entered ws),
      )
      (record { one = omega (arith, o.one); order = o.order; all = o.all; text = o.text })

main_step-Sound :
    (all : List Job) (main main' : Main) (ws ws' : List Worker) (m : Shared)
    → main_step main ws ≡ some (main', ws')
    → Sound all (record { main = main; threads = ws; shared = m })
    → Sound all (record { main = main'; threads = ws'; shared = m })
unfolding main_step
main_step-Sound all (spawning (j ∷ js)) main' ws ws' m h o =
    let next : List Worker = record { job = j; place = opening } ∷ [] in
    let there : spawning js ≡ main' = cc (h) in
    let same : ws ++ next ≡ ws' = cc (h) in
    rw (← there, ← same)
      (record {
        orderly = spawn-AllOrderly ws j m o.orderly;
        every = rw (jobs-append ws next, append_assoc (jobs ws) (j ∷ []) js) o.every;
        joined = tt;
      })
main_step-Sound all (spawning []) main' ws ws' m h o =
    let there : joining 0 ≡ main' = cc (h) in
    let same : ws ≡ ws' = cc (h) in
    rw (← there, ← same) (record { orderly = o.orderly; every = o.every; joined = tt })
main_step-Sound all (joining k) main' ws ws' m h o = elim (from_cases (from k ws)) [
  | inl e ↦
      let done_ : some (returned, ws) ≡ some (main', ws') = rw (e, main_step) at h in
      let there : returned ≡ main' = cc (done_) in
      let same : ws ≡ ws' = cc (done_) in
      rw (← there, ← same)
        (record { orderly = o.orderly; every = o.every; joined = join_last k ws e o.joined })
  | inr (w, behind, e) ↦ elim (Bool-cases (is_finished w.place)) [
    | inl y ↦
        let number : k + 1 ≡ suc k = omega arith in
        let next : some (joining (k + 1), ws) ≡ some (main', ws') = rw (e, y, main_step) at h in
        let there : joining (k + 1) ≡ main' = cc (next) in
        let same : ws ≡ ws' = cc (next) in
        rw (← there, ← same)
          (record {
            orderly = o.orderly;
            every = o.every;
            joined = rw number (join_next k ws behind w e (is_finished-IsFinished w y) o.joined);
          })
    | inr n ↦ absurd (ground arith)
  ]
]
main_step-Sound all returned main' ws ws' m h o = absurd (cc (h))

step-Sound :
    (all : List Job) (who : Who) (s t : State) → step who s ≡ some t → Sound all s → Sound all t
unfolding step
step-Sound all main_thread s t h o = elim (Option-cases (main_step s.main s.threads)) [
  | inl e ↦ absurd (ground arith)
  | inr (r, e) ↦
      let same : record s { main = r.0; threads = r.1 } ≡ t = ground arith in
      rw (← same) (main_step-Sound all s.main r.0 s.threads r.1 s.shared e o)
]
step-Sound all (worker i) s t h o = elim (Option-cases (turn i s.threads s.shared)) [
  | inl e ↦ absurd (ground arith)
  | inr (r, e) ↦
      let same : record s { threads = r.0; shared = r.1 } ≡ t = ground arith in
      rw (← same) (record {
        orderly = turn-AllOrderly i s.threads r.0 s.shared r.1 e o.orderly;
        every = rw (turn-jobs i s.threads r.0 s.shared r.1 e) o.every;
        joined = turn-Joined s.main i s.threads r.0 s.shared r.1 e o.joined;
      })
]

after-Sound :
    (all : List Job) (order : List Who) (s t : State)
    → after order s ≡ some t
    → Sound all s
    → Sound all t
unfolding after
after-Sound all [] s t h o = let same : s ≡ t = cc (h) in rw (← same) o
after-Sound all (who ∷ order) s t h o = elim (Option-cases (step who s)) [
  | inl e ↦ absurd (ground arith)
  | inr (u, e) ↦ after-Sound all order u t (ground arith) (step-Sound all who s u e o)
]

start-Sound : (all : List Job) → Sound all (start all)
start-Sound all = record {
  orderly = record { one = refl; order = []; all = Perm.nil; text = refl };
  every = refl;
  joined = tt;
}

-- In every state that some order of the threads leads to, the invariant holds.
pub reached-Sound :
    (all : List Job) (order : List Who) (s : State) → after order (start all) ≡ some s → Sound all s
reached-Sound all order s h = after-Sound all order (start all) s h (start-Sound all)

-- Threads at their ends have nothing left to write, and do not hold the mutex.
finished_all :
    (ws : List Worker)
    → All IsFinished ws
    → (all_left ws ≡ []) × (all_entered ws ≡ jobs ws) × (holders ws ≡ 0)
finished_all [] a = (refl, refl, refl)
finished_all (w ∷ ws) (f, a) =
    let (l, e, h) = finished_all ws a in (rw (f, l) refl, rw (f, e) refl, rw (f, h) refl)

unlocked : (b : Bool) → as_number b ≡ 0 → b ≡ false
unlocked true h = absurd (omega (arith, h))
unlocked false h = refl

-- For every order in which the threads may run up to the return of `main`: all threads have come to their
-- ends and the mutex is free, and the program wrote the message of each of its arguments once and whole,
-- with no other message inside, in some order of the arguments.
pub returned-messages :
    (all : List Job) (order : List Who) (s : State)
    → after order (start all) ≡ some s
    → s.main ≡ returned
    → All IsFinished s.threads
      × (s.shared.locked ≡ false)
      × (given : List Job) × Perm given all
      × (s.shared.writes ≡ messages given)
returned-messages all order s h e =
    let o = reached-Sound all order s h in
    let finished_ : All IsFinished s.threads = rw e at o.joined in
    let (l, g, none_held) = finished_all s.threads finished_ in
    let every : jobs s.threads ++ [] ≡ all = rw e at o.every in
    let perm : Perm o.orderly.order (jobs s.threads) = rw g at o.orderly.all in
    let text : s.shared.writes ++ [] ≡ messages o.orderly.order = rw l at o.orderly.text in
    (
      finished_,
      unlocked s.shared.locked (sym o.orderly.one ∙ none_held),
      o.orderly.order,
      rw (← every, append-nil (jobs s.threads)) perm,
      sym (append-nil s.shared.writes) ∙ text,
    )
