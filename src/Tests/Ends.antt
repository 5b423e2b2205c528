-- ===== src/Tests/Ends.antt =====
-- How the sample runs of src/trace/tracer.cpp end.
use gravelbox.Base.{refl}
use gravelbox.NatMap
use gravelbox.Tracer.Types.{wait_status}
use gravelbox.Tracer.Loop.{
  on_event, trace_loop, on_status, on_stop, on_syscall_stop, on_entry, enter_verdict, report_denial,
}
use gravelbox.Tracer.Returns.{Returned, trace_loop-Returned}
use gravelbox.Tests.Sample.{read_only, launch, in_user_space}

trace_loop-Returned_example : Returned read_only launch.events in_user_space 3
unfolding trace_loop on_event wait_status NatMap.find NatMap.assign NatMap.erase NatMap.is_empty
    on_status on_stop on_syscall_stop on_entry enter_verdict report_denial
trace_loop-Returned_example = trace_loop-Returned read_only launch.events in_user_space 3 refl
