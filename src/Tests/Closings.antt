-- ===== src/Tests/Closings.antt =====
-- A sample run of src/modules.cpp with the pinentry of src/ui/pinentry_ui.cpp.
use gravelbox.Base.{◌+◌, ◌≡◌, refl, [], ◌∷◌, codes, str_eq, true, none, some, ok}
use gravelbox.NatMap
use gravelbox.Utils.{done}
use gravelbox.Config.Hex.{hex2bytes}
use gravelbox.Config.FileConfig.{
  new_config, read_config, string_at, password_bytes, to_action, read_groups, get_action,
  first_action, any_match, has_password, remove_password, dismiss_signature,
}
use gravelbox.Parser.Load.{new_parser, read_syscalls, load_definitions, sanitize, catch_json}
use gravelbox.Parser.Call.{call, write_call, noexcept, setpid}
use gravelbox.Tracer.Types.{wait_status, syscall_args}
use gravelbox.Tracer.Loop.{
  on_event, trace_loop, on_status, on_stop, on_syscall_stop, on_entry, enter_verdict, report_denial,
}
use gravelbox.Tracer.Run.{start_trace, run_with_callbacks}
use gravelbox.Tracer.Decide.{
  run_callbacks, syscall_callback, decide, by_verdict, ask_user, confirmed,
}
use gravelbox.Ui.Pinentry
use gravelbox.Ui.Pinentry.{recv_lines, ask, confirm, open_conn, close_conn, command, expect_ok}
use gravelbox.Ui.Launch.{Startup}
use gravelbox.Ui.Descriptors.{count}
use gravelbox.Program.Options.{Options}
use gravelbox.Program.Run.{prepare, traced, trace, run_prepared, run}
use gravelbox.Program.PinentryOwner.{Host, pinentry_owner}
use gravelbox.Program.Closing.{made_by, run-closes}
use gravelbox.Tests.Programs.{lib, options}
use gravelbox.Tests.Mains.{machine}
use gravelbox.Tests.Descriptors.{closes_all, nothing_closed}

-- Each pinentry gets four descriptors, and answers that all is well.
abbrev well : Startup
well = record {
  to_pinentry = done (3, 4);
  from_pinentry = done (5, 6);
  ttyname = done (codes "/dev/tty");
  forked = done 200;
  lines =
      codes "OK" ∷ codes "OK" ∷ codes "OK" ∷ codes "OK" ∷ codes "OK" ∷ codes "OK" ∷ codes "OK" ∷ [];
}

abbrev host : Host
host = record {
  startup = λ k path. well;
  waited = λ k. done 0;
  started = [];
  ends = 0;
  files = nothing_closed;
  current = none;
}

abbrev unsigned_options : Options
unsigned_options = record options { no_signature = true }

run_returns : (run lib (pinentry_owner closes_all 0) unsigned_options machine host).0 ≡ ok (some 3)
unfolding run run_prepared traced trace prepare new_config read_config string_at password_bytes
    hex2bytes str_eq to_action read_groups new_parser read_syscalls load_definitions sanitize
    catch_json run_with_callbacks start_trace wait_status syscall_args on_event on_status on_stop
    on_syscall_stop on_entry enter_verdict report_denial NatMap.find NatMap.assign NatMap.erase
    NatMap.is_empty trace_loop run_callbacks syscall_callback call write_call decide by_verdict
    get_action first_action any_match ask_user confirmed has_password noexcept setpid pinentry_owner
    recv_lines remove_password dismiss_signature open_conn expect_ok Pinentry.recv command ask
    confirm Pinentry.confirmed close_conn
run_returns = refl

run-closes_example :
    let u = (run lib (pinentry_owner closes_all 0) unsigned_options machine host).1 in
    (u.current ≡ none) × (count 4 u.files.closed ≡ made_by 4 u.started + 0)
run-closes_example =
    run-closes closes_all (λ n. refl) 0 lib unsigned_options machine host 4 refl refl
      (λ h. cc run_returns)
