-- ===== src/Tests/Refinements.antt =====
-- Sample runs of src/trace/tracer.cpp beside the reference monitor.
use gravelbox.Base.{refl, false, [], ◌∷◌}
use gravelbox.Utils.{done}
use gravelbox.NatMap
use gravelbox.Tracer.Types.{wait_status}
use gravelbox.Tracer.Loop.{
  on_event, trace_loop, on_status, on_stop, on_syscall_stop, on_entry, enter_verdict,
}
use gravelbox.Tracer.Run.{Launch, start_trace, run_with_callbacks, untraced}
use gravelbox.Tracer.Monitor.{Moves, nothing, LastRuled}
use gravelbox.Tracer.Seen.{decisions_of, seen}
use gravelbox.Tracer.Refinement.{run_with_callbacks-Moves, run_with_callbacks_ruling}
use gravelbox.Tests.Sample.{read_only, event, syscall_stop, launch}

run_with_callbacks-Moves_example :
    Moves read_only nothing (seen (run_with_callbacks read_only launch (untraced 0)).1)
run_with_callbacks-Moves_example = run_with_callbacks-Moves read_only launch 0

-- A run up to the refusal of call 1.
abbrev up_to_refusal : Launch
up_to_refusal = record launch { events = done (event 100 syscall_stop 1) ∷ [] }

run_with_callbacks_ruling_example :
    LastRuled read_only 100 false
      (decisions_of (run_with_callbacks read_only up_to_refusal (untraced 0)).1.log)
unfolding run_with_callbacks trace_loop on_event start_trace wait_status NatMap.find NatMap.assign
    on_status on_stop on_syscall_stop on_entry enter_verdict
run_with_callbacks_ruling_example =
    run_with_callbacks_ruling read_only up_to_refusal 0 100 false refl
