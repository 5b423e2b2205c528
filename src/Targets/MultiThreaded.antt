-- ===== src/Targets/MultiThreaded.antt =====
-- src/targets/multi-threaded.cpp: a thread for each file, which shows the first line of it under a mutex.
pub mod Turns
pub mod Whole
pub mod Joined
pub mod Joins
pub mod Steps
pub mod Progress
use gravelbox.Base.{
  ℕ, zero, suc, ◌+◌, Bytes, List, [], ◌∷◌, ◌++◌, codes, Bool, true, false, ◌==◌, if◌then◌else◌,
  Option, none, some,
}

-- An argument of the program, and what stands in the file when its thread opens it, if that goes well.
pub record Job : Type 0 where
  pub file : Bytes
  pub found : Option Bytes

pub data Sink : Type 0 where
  cout cerr : Sink

-- One `<<` to a stream.
abbrev pub Write : Type 0
Write = Sink × Bytes

-- std::getline(is, s)
unfoldable pub first_line : Bytes → Bytes
first_line [] = []
first_line (c ∷ text) = let rest = first_line text in if c == b'\n' then [] else c ∷ rest

-- What a thread writes while it holds the mutex.
unfoldable pub message : Job → List Write
message j = elim j.found [
  | none ↦ (cerr, codes "Error: Cannot open ") ∷ (cerr, j.file) ∷ (cerr, codes "\n") ∷ []
  | some text ↦
      (cout, j.file) ∷ (cout, codes ": ") ∷ (cout, first_line text) ∷ (cout, codes "\n") ∷ []
]

-- Where a thread stands: before it opens its file, before `scoped_lock`, with what it has still to write
-- under the lock, and behind its last instruction.
pub data Place : Type 0 where
  opening waiting : Place
  writing : List Write → Place
  finished : Place

pub record Worker : Type 0 where
  pub job : Job
  pub place : Place

-- The mutex `m`, and the writes so far.
pub record Shared : Type 0 where
  pub locked : Bool
  pub writes : List Write

-- A step of a thread; `none` where it waits for the mutex or is at its end.
unfoldable pub advance : Job → Place → Shared → Option (Place × Shared)
advance j opening m = some (waiting, m)
advance j waiting m =
    if m.locked then none else some (writing (message j), record m { locked = true })
advance j (writing []) m = some (finished, record m { locked = false })
advance j (writing (w ∷ ws)) m = some (writing ws, record m { writes = m.writes ++ w ∷ [] })
advance j finished m = none

-- A step of the thread with a number.
unfoldable pub turn : ℕ → List Worker → Shared → Option (List Worker × Shared)
unfolding advance
turn i [] m = none
turn zero (w ∷ ws) m = elim (advance w.job w.place m) [
  | none ↦ none
  | some r ↦ some (record w { place = r.0 } ∷ ws, r.1)
]
turn (suc i) (w ∷ ws) m = elim (turn i ws m) [ none ↦ none | some r ↦ some (w ∷ r.0, r.1) ]

-- Where `main` stands: before the loop round for the first of the arguments that are left, before the
-- `join` with a number, and behind its last instruction.
pub data Main : Type 0 where
  spawning : List Job → Main
  joining : ℕ → Main
  returned : Main

pub record State : Type 0 where
  pub main : Main
  pub threads : List Worker
  pub shared : Shared

abbrev pub is_finished : Place → Bool
is_finished finished = true
is_finished _ = false

-- The threads from number `k` on.
abbrev pub from : ℕ → List Worker → List Worker
from zero ws = ws
from (suc k) [] = []
from (suc k) (w ∷ ws) = from k ws

-- A step of `main`; `none` where it waits for a thread or is at its end.
unfoldable pub main_step : Main → List Worker → Option (Main × List Worker)
main_step (spawning (j ∷ js)) ws =
    some (spawning js, ws ++ record { job = j; place = opening } ∷ [])
main_step (spawning []) ws = some (joining 0, ws)
main_step (joining k) ws = elim (from k ws) [
  | [] ↦ some (returned, ws)
  | w ∷ _ ↦ if is_finished w.place then some (joining (k + 1), ws) else none
]
main_step returned ws = none

-- Which thread is the next to run.
pub data Who : Type 0 where
  main_thread : Who
  worker : ℕ → Who

unfoldable pub step : Who → State → Option State
unfolding main_step turn
step main_thread s = elim (main_step s.main s.threads) [
  | none ↦ none
  | some r ↦ some (record s { main = r.0; threads = r.1 })
]
step (worker i) s = elim (turn i s.threads s.shared) [
  | none ↦ none
  | some r ↦ some (record s { threads = r.0; shared = r.1 })
]

-- The start of `main`, and the state after the threads ran in an order, if they can.
abbrev pub start : List Job → State
start jobs = record {
  main = spawning jobs;
  threads = [];
  shared = record { locked = false; writes = [] };
}

unfoldable pub after : List Who → State → Option State
unfolding step
after [] s = some s
after (who ∷ order) s = elim (step who s) [ none ↦ none | some t ↦ after order t ]
