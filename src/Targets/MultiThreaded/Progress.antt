-- ===== src/Targets/MultiThreaded/Progress.antt =====
-- That src/targets/multi-threaded.cpp comes to its end, in whatever order its threads run.
use gravelbox.Base.{
  ℕ, zero, suc, ◌+◌, ◌≤◌, ◌≡◌, refl, List, [], ◌∷◌, true, false, some, inl, inr, ◌⊎◌, length,
  Bool-cases, arith,
}
use gravelbox.Targets.MultiThreaded.{
  Job, message, Place, opening, waiting, writing, finished, Worker, Shared, advance, turn,
  is_finished, from, Main, spawning, joining, returned, main_step, State, Who, main_thread, worker,
  step, start, after,
}
use gravelbox.Targets.MultiThreaded.Turns.{holds, holders}
use gravelbox.Targets.MultiThreaded.Whole.{AllOrderly}
use gravelbox.Targets.MultiThreaded.Joined.{from_cases}
use gravelbox.Targets.MultiThreaded.Joins.{reached-Sound}
use gravelbox.Targets.MultiThreaded.Steps.{jobs_steps, after-steps_left}

abbrev CanStep : State → Type 0
CanStep s = (who : Who) × (t : State) × (step who s ≡ some t)

abbrev CanTurn : List Worker → Shared → Type 0
CanTurn ws m = (i : ℕ) × (r : List Worker × Shared) × (turn i ws m ≡ some r)

CanTurn-cons : (w : Worker) (ws : List Worker) (m : Shared) → CanTurn ws m → CanTurn (w ∷ ws) m
unfolding turn
CanTurn-cons w ws m (i, r, e) = (suc i, (w ∷ r.0, r.1), rw (e, turn) refl)

-- A thread that holds the mutex can go on.
holder_goes_on :
    (w : Worker) (m : Shared)
    → holds w.place ≡ 1
    → (r : Place × Shared) × (advance w.job w.place m ≡ some r)
unfolding advance
holder_goes_on w m h = go w.job w.place h
  where
    go : (j : Job) (p : Place) → holds p ≡ 1 → (r : Place × Shared) × (advance j p m ≡ some r)
    go j opening h = absurd (omega (arith, h))
    go j waiting h = absurd (omega (arith, h))
    go j (writing []) h = (_, refl)
    go j (writing (v ∷ vs)) h = (_, refl)
    go j finished h = absurd (omega (arith, h))

-- While the mutex is free, a thread that is not at its end can go on.
free_goes_on :
    (j : Job) (p : Place) (m : Shared)
    → m.locked ≡ false
    → is_finished p ≡ false
    → (r : Place × Shared) × (advance j p m ≡ some r)
unfolding advance
free_goes_on j opening m u n = (_, refl)
free_goes_on j waiting m u n =
    ((writing (message j), record m { locked = true }), rw (u, advance) refl)
free_goes_on j (writing []) m u n = (_, refl)
free_goes_on j (writing (v ∷ vs)) m u n = (_, refl)
free_goes_on j finished m u n = absurd (cc (n))

head_turns :
    (w : Worker) (ws : List Worker) (m : Shared)
    → (r : Place × Shared) × (advance w.job w.place m ≡ some r)
    → CanTurn (w ∷ ws) m
unfolding turn
head_turns w ws m (r, e) = (0, (record w { place = r.0 } ∷ ws, r.1), rw (e, turn) refl)

holds-cases : (p : Place) → (holds p ≡ 0) ⊎ (holds p ≡ 1)
holds-cases opening = inl refl
holds-cases waiting = inl refl
holds-cases (writing ws) = inr refl
holds-cases finished = inl refl

holders_turn : (ws : List Worker) (m : Shared) → holders ws ≡ 1 → CanTurn ws m
holders_turn [] m h = absurd (omega (arith, h))
holders_turn (w ∷ ws) m h = elim (holds-cases w.place) [
  | inl z ↦ CanTurn-cons w ws m (holders_turn ws m (omega arith))
  | inr o ↦ head_turns w ws m (holder_goes_on w m o)
]

from_turns :
    (k : ℕ) (ws behind : List Worker) (w : Worker) (m : Shared)
    → m.locked ≡ false
    → from k ws ≡ w ∷ behind
    → is_finished w.place ≡ false
    → CanTurn ws m
from_turns zero [] behind w m u e n = absurd (cc (e))
from_turns zero (v ∷ ws) behind w m u e n =
    let same : v ≡ w = cc (e) in head_turns v ws m (free_goes_on v.job v.place m u (rw same n))
from_turns (suc k) [] behind w m u e n = absurd (cc (e))
from_turns (suc k) (v ∷ ws) behind w m u e n =
    CanTurn-cons v ws m (from_turns k ws behind w m u e n)

-- Where `main` waits for a thread, some thread can go on.
unfinished_turns :
    (k : ℕ) (ws behind : List Worker) (w : Worker) (m : Shared)
    → AllOrderly ws m
    → from k ws ≡ w ∷ behind
    → is_finished w.place ≡ false
    → CanTurn ws m
unfinished_turns k ws behind w m o e n = elim (Bool-cases m.locked) [
  | inl y ↦ let one : holders ws ≡ 1 = rw y at o.one in holders_turn ws m one
  | inr u ↦ from_turns k ws behind w m u e n
]

CanTurn-CanStep : (s : State) → CanTurn s.threads s.shared → CanStep s
unfolding step
CanTurn-CanStep s (i, r, e) =
    (worker i, record s { threads = r.0; shared = r.1 }, rw (e, step) refl)

main-CanStep :
    (s : State) (r : Main × List Worker) → main_step s.main s.threads ≡ some r → CanStep s
unfolding step
main-CanStep s r e = (main_thread, record s { main = r.0; threads = r.1 }, rw (e, step) refl)

no_deadlock :
    (main : Main) (ws : List Worker) (m : Shared)
    → AllOrderly ws m
    → (main ≡ returned) ⊎ CanStep (record { main = main; threads = ws; shared = m })
unfolding main_step
no_deadlock (spawning (j ∷ js)) ws m o = inr (main-CanStep _ _ refl)
no_deadlock (spawning []) ws m o = inr (main-CanStep _ _ refl)
no_deadlock (joining k) ws m o =
    let s : State = record { main = joining k; threads = ws; shared = m } in
    elim (from_cases (from k ws)) [
      | inl e ↦ inr (main-CanStep s (returned, ws) (rw (e, main_step) refl))
      | inr (w, behind, e) ↦ elim (Bool-cases (is_finished w.place)) [
        | inl y ↦ inr (main-CanStep s (joining (k + 1), ws) (rw (e, y, main_step) refl))
        | inr n ↦ inr (CanTurn-CanStep s (unfinished_turns k ws behind w m o e n))
      ]
    ]
no_deadlock returned ws m o = inl refl

-- For every order in which the threads may run: it has at most as many steps as the program has in
-- all, and where it ends `main` has returned or some thread can take a further step.
pub run_ends :
    (all : List Job) (order : List Who) (s : State)
    → after order (start all) ≡ some s
    → (length order ≤ jobs_steps all + 2) × ((s.main ≡ returned) ⊎ CanStep s)
run_ends all order s h =
    let o = reached-Sound all order s h in
    (
      omega (arith, after-steps_left order (start all) s h),
      no_deadlock s.main s.threads s.shared o.orderly,
    )
