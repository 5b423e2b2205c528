-- ===== src/Targets/MultiThreaded/Turns.antt =====
-- What one step of a thread of src/targets/multi-threaded.cpp does to all of them.
use gravelbox.Base.{
  ℕ, zero, suc, ◌+◌, ◌≡◌, refl, sym, ap, List, [], ◌∷◌, ◌++◌, append_assoc, some, Option-cases, inl,
  inr, arith,
}
use gravelbox.Targets.MultiThreaded.{
  Job, Write, Place, opening, waiting, writing, finished, Worker, Shared, advance, turn,
}

abbrev pub IsFinished : Worker → Type 0
IsFinished w = w.place ≡ finished

-- What a thread is to the others: how many times it holds the mutex, what it has still to write under it,
-- and its job once it has been given the mutex.
abbrev pub holds : Place → ℕ
holds (writing _) = 1
holds _ = 0

abbrev pub left : Place → List Write
left (writing ws) = ws
left _ = []

abbrev pub entered : Job → Place → List Job
entered j (writing _) = j ∷ []
entered j finished = j ∷ []
entered j _ = []

abbrev pub holders : List Worker → ℕ
holders [] = 0
holders (w ∷ ws) = holds w.place + holders ws

abbrev pub all_left : List Worker → List Write
all_left [] = []
all_left (w ∷ ws) = left w.place ++ all_left ws

abbrev pub all_entered : List Worker → List Job
all_entered [] = []
all_entered (w ∷ ws) = entered w.job w.place ++ all_entered ws

abbrev pub jobs : List Worker → List Job
jobs [] = []
jobs (w ∷ ws) = w.job ∷ jobs ws

pub holders-append : (v w : List Worker) → holders (v ++ w) ≡ holders v + holders w
holders-append [] w = omega arith
holders-append (x ∷ v) w = omega (arith, holders-append v w)

pub all_left-append : (v w : List Worker) → all_left (v ++ w) ≡ all_left v ++ all_left w
all_left-append [] w = refl
all_left-append (x ∷ v) w =
    rw (all_left-append v w) (sym (append_assoc (left x.place) (all_left v) (all_left w)))

pub all_entered-append : (v w : List Worker) → all_entered (v ++ w) ≡ all_entered v ++ all_entered w
all_entered-append [] w = refl
all_entered-append (x ∷ v) w =
    rw (all_entered-append v w)
      (sym (append_assoc (entered x.job x.place) (all_entered v) (all_entered w)))

pub jobs-append : (v w : List Worker) → jobs (v ++ w) ≡ jobs v ++ jobs w
jobs-append [] w = refl
jobs-append (x ∷ v) w = ap (λ l. x.job ∷ l) (jobs-append v w)

left_idle : (p : Place) → holds p ≡ 0 → left p ≡ []
left_idle opening h = refl
left_idle waiting h = refl
left_idle (writing ws) h = absurd (omega (arith, h))
left_idle finished h = refl

-- Where no thread holds the mutex, none has anything to write under it.
pub all_left-idle : (ws : List Worker) → holders ws ≡ 0 → all_left ws ≡ []
all_left-idle [] h = refl
all_left-idle (w ∷ ws) h = rw (left_idle w.place (omega arith), all_left-idle ws (omega arith)) refl

-- A step moves one thread, between those before and those behind it.
pub record Turned (ws : List Worker) (m : Shared) (ws' : List Worker) (m' : Shared) : Type 0 where
  pub before : List Worker
  pub job : Job
  pub here : Place
  pub there : Place
  pub behind : List Worker
  pub was : ws ≡ before ++ record { job = job; place = here } ∷ behind
  pub is : ws' ≡ before ++ record { job = job; place = there } ∷ behind
  pub moved : advance job here m ≡ some (there, m')

pub turn-Turned :
    (i : ℕ) (ws : List Worker) (m : Shared) (ws' : List Worker) (m' : Shared)
    → turn i ws m ≡ some (ws', m')
    → Turned ws m ws' m'
unfolding turn
turn-Turned i [] m ws' m' h = absurd (cc (h))
turn-Turned zero (w ∷ ws) m ws' m' h = elim (Option-cases (advance w.job w.place m)) [
  | inl e ↦ absurd (ground arith)
  | inr (r, e) ↦ record {
    before = [];
    job = w.job;
    here = w.place;
    there = r.0;
    behind = ws;
    was = refl;
    is = ground arith;
    moved = ground arith;
  }
]
turn-Turned (suc i) (w ∷ ws) m ws' m' h = elim (Option-cases (turn i ws m)) [
  | inl e ↦ absurd (ground arith)
  | inr (r, e) ↦
      let t = turn-Turned i ws m r.0 m' (ground arith) in
      record {
        before = w ∷ t.before;
        job = t.job;
        here = t.here;
        there = t.there;
        behind = t.behind;
        was = ap (λ l. w ∷ l) t.was;
        is = ground (arith, t.is);
        moved = t.moved;
      }
]
