-- ===== src/Tests/Traces.antt =====
-- Runs of the loop of src/trace/tracer.cpp on the sample events.
use gravelbox.Base.{
  All, ℕ, ◌≡◌, ◌≢◌, refl, Bool, some, [], ◌∷◌, ◌++◌, arith, ok, throw, system_error, out_of_range,
}
use gravelbox.Utils.{done}
use gravelbox.NatMap
use gravelbox.Tracer.Types.{esrch, wait_status}
use gravelbox.Tracer.Log.{resumes}
use gravelbox.Tracer.Loop.{
  on_event, on_status, on_stop, on_syscall_stop, on_entry, enter_verdict, report_denial,
}
use gravelbox.Tracer.Run.{start_trace, run_with_callbacks, untraced}
use gravelbox.Tracer.System.{Sys, Reach, here, next, round, after, next_phase, let_go}
use gravelbox.Tracer.Mediation.{initial}
use gravelbox.Tracer.Entries.{Mediates, rounds}
use gravelbox.Tracer.LetThrough.{run-Mediates}
use gravelbox.Tracer.Progress.{Reach-let_go}
use gravelbox.Tracer.Results.{EndsAs, Reach-EndsAs}
use gravelbox.Tracer.Monitor.{LastRuled}
use gravelbox.Tracer.Seen.{decisions_of}
use gravelbox.Tracer.Errors.{Reach-ne-out_of_range}
use gravelbox.Tracer.Ending.{events_of, run_with_callbacks_ends}
use gravelbox.Tests.Sample.{read_only, event, syscall_stop, exit_3, launch, regs}

abbrev start : Sys ℕ
start = initial launch 100 0

started : (start_trace {W = ℕ} launch (untraced 0)).0 ≡ ok tt
unfolding start_trace wait_status
started = refl

abbrev refused_call : Sys ℕ
refused_call = after read_only (event 100 syscall_stop 1) start

first_step : Reach read_only start refused_call
unfolding on_event start_trace wait_status NatMap.find NatMap.assign on_status on_stop
    on_syscall_stop on_entry enter_verdict
first_step = next here (round (event 100 syscall_stop 1) tt refl refl)

-- The child's first stop is let go by the loop, into a call that `read_only` refused.
run-Mediates_example : All (Mediates read_only) (rounds read_only launch.events start)
run-Mediates_example = run-Mediates launch 100 0 refl started read_only

-- The child comes to the end of its call, which `read_only` refused.
Reach-EndsAs_example :
    (v : Bool) × LastRuled read_only 100 v (decisions_of refused_call.tracer.log)
    × EndsAs v
        (event 100 syscall_stop 1)
        refused_call.tracer.log
        (after read_only (event 100 syscall_stop 1) refused_call).tracer.log
unfolding after wait_status next_phase resumes start_trace on_event on_status on_stop NatMap.find
    NatMap.assign on_syscall_stop on_entry enter_verdict let_go report_denial
Reach-EndsAs_example =
    Reach-EndsAs launch 100 0 refl started read_only (event 100 syscall_stop 1) first_step refl refl
      refl refl

Reach-let_go_example :
    Reach read_only start (after read_only (event 100 syscall_stop 1) refused_call)
    × ((after read_only (event 100 syscall_stop 1) refused_call).phase 100
        ≡ let_go (refused_call.phase 100) 133)
unfolding after wait_status next_phase resumes start_trace on_event on_status on_stop NatMap.find
    NatMap.assign on_syscall_stop on_entry enter_verdict let_go
Reach-let_go_example =
    Reach-let_go launch 100 0 refl started read_only (event 100 syscall_stop 1) 133 first_step refl
      tt (regs, refl, refl, refl) (λ user. absurd (cc (user)))

Reach-ne-out_of_range_example :
    ((on_event read_only (event 100 syscall_stop 1) refused_call.tracer).0 ≢ throw out_of_range)
    × ((on_event read_only (event 100 syscall_stop 1) refused_call.tracer).0
        ≢ throw (system_error esrch))
unfolding after wait_status next_phase resumes start_trace on_event on_status on_stop NatMap.find
    NatMap.assign on_syscall_stop on_entry enter_verdict let_go
Reach-ne-out_of_range_example =
    Reach-ne-out_of_range read_only (λ args w h. cc) launch 100 0 refl started first_step
      (event 100 syscall_stop 1) tt

run_with_callbacks_ends_example :
    (run_with_callbacks read_only
      (record launch { events = events_of read_only first_step ++ done (event 100 exit_3 0) ∷ [] })
      (untraced 0)).0
    ≡ ok (some 3)
unfolding wait_status after next_phase resumes start_trace on_event on_status on_stop NatMap.find
    NatMap.assign on_syscall_stop on_entry enter_verdict let_go
run_with_callbacks_ends_example =
    run_with_callbacks_ends read_only launch 100 0 refl started first_step (event 100 exit_3 0) 3
      refl [] (λ q apart. ground arith)
