-- ===== src/Targets/MultiThreaded/Joined.antt =====
-- Which threads of src/targets/multi-threaded.cpp `main` has joined.
use gravelbox.Base.{
  ℕ, zero, suc, ◌≡◌, refl, sym, ◌∙◌, List, [], ◌∷◌, true, false, none, some, Option-cases, inl, inr,
  ◌⊎◌, take, All, arith,
}
use gravelbox.Targets.MultiThreaded.{
  Job, Place, opening, waiting, writing, finished, Worker, Shared, advance, turn, is_finished, from,
  Main, spawning, joining, returned,
}
use gravelbox.Targets.MultiThreaded.Turns.{IsFinished, jobs, jobs-append, turn-Turned}

-- The jobs whose threads are still to be started, and the threads that are known to be at their ends.
abbrev pub to_spawn : Main → List Job
to_spawn (spawning js) = js
to_spawn _ = []

abbrev pub Joined : Main → List Worker → Type 0
Joined (spawning _) ws = Unit
Joined (joining k) ws = All IsFinished (take k ws)
Joined returned ws = All IsFinished ws

pub turn-jobs :
    (i : ℕ) (ws ws' : List Worker) (m m' : Shared)
    → turn i ws m ≡ some (ws', m')
    → jobs ws' ≡ jobs ws
turn-jobs i ws ws' m m' h =
    let t = turn-Turned i ws m ws' m' h in
    rw (t.was, t.is)
      (jobs-append t.before (record { job = t.job; place = t.there } ∷ t.behind)
        ∙ sym (jobs-append t.before (record { job = t.job; place = t.here } ∷ t.behind)))

-- A thread at its end takes no step.
advance-finished : (w : Worker) (m : Shared) → IsFinished w → advance w.job w.place m ≡ none
unfolding advance
advance-finished w m h = rw h refl

turn-joined :
    (i k : ℕ) (ws ws' : List Worker) (m m' : Shared)
    → turn i ws m ≡ some (ws', m')
    → All IsFinished (take k ws)
    → All IsFinished (take k ws')
unfolding turn
turn-joined i zero ws ws' m m' h a = tt
turn-joined i (suc k) [] ws' m m' h a = absurd (cc (h))
turn-joined zero (suc k) (w ∷ ws) ws' m m' h (f, a) =
    absurd (ground (arith, advance-finished w m f))
turn-joined (suc i) (suc k) (w ∷ ws) ws' m m' h (f, a) = elim (Option-cases (turn i ws m)) [
  | inl e ↦ absurd (ground arith)
  | inr (r, e) ↦
      let same : w ∷ r.0 ≡ ws' = ground arith in rw (← same) (f, turn-joined i k ws r.0 m r.1 e a)
]

turn-finished : (i : ℕ) (ws : List Worker) (m : Shared) → All IsFinished ws → turn i ws m ≡ none
unfolding turn
turn-finished i [] m a = refl
turn-finished zero (w ∷ ws) m (f, a) = rw (advance-finished w m f, turn) refl
turn-finished (suc i) (w ∷ ws) m (f, a) = rw (turn-finished i ws m a, turn) refl

pub turn-Joined :
    (main : Main) (i : ℕ) (ws ws' : List Worker) (m m' : Shared)
    → turn i ws m ≡ some (ws', m')
    → Joined main ws
    → Joined main ws'
turn-Joined (spawning js) i ws ws' m m' h a = tt
turn-Joined (joining k) i ws ws' m m' h a = turn-joined i k ws ws' m m' h a
turn-Joined returned i ws ws' m m' h a = absurd (cc (h, turn-finished i ws m a))

-- The thread with number `k`, or none.
pub join_next :
    (k : ℕ) (ws behind : List Worker) (w : Worker)
    → from k ws ≡ w ∷ behind
    → IsFinished w
    → All IsFinished (take k ws)
    → All IsFinished (take (suc k) ws)
join_next zero [] behind w e f a = absurd (cc (e))
join_next zero (v ∷ ws) behind w e f a = (let same : v ≡ w = cc (e) in rw same f, tt)
join_next (suc k) [] behind w e f a = absurd (cc (e))
join_next (suc k) (v ∷ ws) behind w e f (g, a) = (g, join_next k ws behind w e f a)

pub join_last :
    (k : ℕ) (ws : List Worker) → from k ws ≡ [] → All IsFinished (take k ws) → All IsFinished ws
join_last zero [] e a = tt
join_last zero (v ∷ ws) e a = absurd (cc (e))
join_last (suc k) [] e a = tt
join_last (suc k) (v ∷ ws) e (g, a) = (g, join_last k ws e a)

pub from_cases :
    (l : List Worker) → (l ≡ []) ⊎ ((w : Worker) × (behind : List Worker) × (l ≡ w ∷ behind))
from_cases [] = inl refl
from_cases (w ∷ ws) = inr (w, ws, refl)

pub is_finished-IsFinished : (w : Worker) → is_finished w.place ≡ true → IsFinished w
is_finished-IsFinished w h = elim (place_cases w.place) [ inl e ↦ e | inr n ↦ absurd (cc (h, n)) ]
  where
    place_cases : (p : Place) → (p ≡ finished) ⊎ (is_finished p ≡ false)
    place_cases opening = inr refl
    place_cases waiting = inr refl
    place_cases (writing ws) = inr refl
    place_cases finished = inl refl
