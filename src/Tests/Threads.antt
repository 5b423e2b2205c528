-- ===== src/Tests/Threads.antt =====
-- A sample run of src/targets/multi-threaded.cpp.
use mathlib.Core.List.{Perm}
use gravelbox.Base.{
  ◌≡◌, ◌≤◌, refl, List, [], ◌∷◌, codes, false, true, none, some, All, ◌⊎◌, length, ◌+◌,
}
use gravelbox.Targets.MultiThreaded.{
  Job, State, Who, main_thread, worker, returned, joining, finished, writing, waiting, cout, cerr,
  step, after, start, message, first_line,
}
use gravelbox.Targets.MultiThreaded.Turns.{IsFinished}
use gravelbox.Targets.MultiThreaded.Whole.{messages}
use gravelbox.Targets.MultiThreaded.Joins.{returned-messages}
use gravelbox.Targets.MultiThreaded.Steps.{jobs_steps}
use gravelbox.Targets.MultiThreaded.Progress.{run_ends}

-- One file that is there, and one that is not.
abbrev there : Job
there = record { file = codes "a"; found = some (codes "one\ntwo") }

abbrev missing : Job
missing = record { file = codes "b"; found = none }

-- The second thread overtakes the first, which waits for the mutex meanwhile.
abbrev overtaken : List Who
overtaken =
    main_thread
    ∷ main_thread
    ∷ worker 0
    ∷ worker 1
    ∷ worker 1
    ∷ worker 1
    ∷ main_thread
    ∷ worker 1
    ∷ worker 1
    ∷ worker 1
    ∷ worker 0
    ∷ worker 0
    ∷ worker 0
    ∷ worker 0
    ∷ worker 0
    ∷ worker 0
    ∷ main_thread
    ∷ main_thread
    ∷ main_thread
    ∷ []

abbrev last : State
last = record {
  main = returned;
  threads =
      record { job = there; place = finished } ∷ record { job = missing; place = finished } ∷ [];
  shared = record {
    locked = false;
    writes =
        (cerr, codes "Error: Cannot open ")
        ∷ (cerr, codes "b")
        ∷ (cerr, codes "\n")
        ∷ (cout, codes "a")
        ∷ (cout, codes ": ")
        ∷ (cout, codes "one")
        ∷ (cout, codes "\n")
        ∷ [];
  };
}

overtaken_last : after overtaken (start (there ∷ missing ∷ [])) ≡ some last
unfolding after message first_line
overtaken_last = refl

returned-messages_example :
    All IsFinished last.threads
    × (last.shared.locked ≡ false)
    × (given : List Job) × Perm given (there ∷ missing ∷ [])
    × (last.shared.writes ≡ messages given)
returned-messages_example =
    returned-messages (there ∷ missing ∷ []) overtaken last overtaken_last refl

-- Both threads are started, the first has the mutex, and the second waits for it.
abbrev begun : List Who
begun = main_thread ∷ main_thread ∷ main_thread ∷ worker 0 ∷ worker 0 ∷ worker 1 ∷ []

abbrev contended : State
contended = record {
  main = joining 0;
  threads =
      record { job = there; place = writing (message there) }
      ∷ record { job = missing; place = waiting }
      ∷ [];
  shared = record { locked = true; writes = [] };
}

begun_leads : after begun (start (there ∷ missing ∷ [])) ≡ some contended
unfolding after
begun_leads = refl

-- The second thread cannot go on here.
waits : step (worker 1) contended ≡ none
unfolding step
waits = refl

run_ends_example :
    (length begun ≤ jobs_steps (there ∷ missing ∷ []) + 2)
    × ((contended.main ≡ returned) ⊎ ((who : Who) × (t : State) × (step who contended ≡ some t)))
run_ends_example = run_ends (there ∷ missing ∷ []) begun contended begun_leads
