-- ===== src/Tests/Mains.antt =====
-- A sample run of the whole program of src/main.cpp.
use gravelbox.Base.{ℕ, Bytes, ◌≡◌, refl, codes, str_eq, [], ◌⊎◌}
use gravelbox.NatMap
use gravelbox.Config.Hex.{hex2bytes}
use gravelbox.Config.FileConfig.{
  new_config, verify_signature, read_config, string_at, password_bytes, to_action, read_groups,
  verify_hmac, get_action, first_action, any_match, has_password, verify_password,
}
use gravelbox.Parser.Load.{new_parser, read_syscalls, load_definitions, sanitize, catch_json}
use gravelbox.Parser.Call.{call, write_call, noexcept, setpid}
use gravelbox.Parser.SyscallDef.{write as write_def, write_args}
use gravelbox.Parser.ArgType.{write}
use gravelbox.Parser.StrType.{put_quoted, put_chars, put_char}
use gravelbox.Ostream.Defs.{put, padding}
use gravelbox.Tracer.Types.{wait_status, syscall_args}
use gravelbox.Tracer.Loop.{
  on_event, trace_loop, on_status, on_stop, on_syscall_stop, on_entry, enter_verdict, report_denial,
}
use gravelbox.Tracer.Run.{start_trace, run_with_callbacks}
use gravelbox.Tracer.Decide.{
  run_callbacks, syscall_callback, decide, log_call, by_verdict, ask_user, confirmed, ask_password,
  confirm_password, settle, password_loop,
}
use gravelbox.Program.Options.{Options}
use gravelbox.Program.Key.{key_loop}
use gravelbox.Program.Run.{Machine, prepare, run, run_prepared, traced, trace}
use gravelbox.Program.Main.{CommandLine, parsed, stored, store_error, Texts, main, read_options}
use gravelbox.Program.Monitored.{GaveUp, Monitored, run-Monitored}
use gravelbox.Program.Exit.{Serves, main_exit}
use gravelbox.Tests.Sample.{memory, launch}
use gravelbox.Tests.Programs.{lib, owner, options}

abbrev pub texts : Texts
texts = record {
  visible_desc = codes "usage";
  unknown_args = codes "unrecognised option '--args'";
  system_what = λ n. codes "error";
  stream_what = codes "stream error";
}

abbrev pub machine : Machine
machine = record { read_memory = memory; launch = launch; target = 0 }

abbrev line : CommandLine
line = parsed [] (stored options)

main_exit_example :
    ((what : Bytes) × (read_options texts line ≡ store_error what) × (◌≡◌ {A = ℕ} 3 1))
    ⊎ ((vm : Options) × (read_options texts line ≡ stored vm)
        × Serves lib owner machine texts vm 2 3)
unfolding main run run_prepared traced trace prepare new_config read_config string_at password_bytes
    hex2bytes str_eq to_action read_groups key_loop verify_signature verify_hmac new_parser
    read_syscalls load_definitions sanitize catch_json run_with_callbacks start_trace wait_status
    syscall_args on_event on_status on_stop on_syscall_stop on_entry enter_verdict report_denial
    NatMap.find NatMap.assign NatMap.erase NatMap.is_empty trace_loop run_callbacks syscall_callback
    call write_call write_def write_args write put padding put_quoted put_chars put_char decide
    by_verdict get_action first_action any_match ask_user confirmed has_password ask_password
    confirm_password settle password_loop verify_password log_call noexcept setpid
main_exit_example = main_exit lib owner machine texts line (record { err = []; world = 2 }) 3 refl

run-Monitored_example : GaveUp lib owner options machine 2 3 ⊎ Monitored lib owner options machine 3
unfolding run run_prepared traced trace prepare new_config read_config string_at password_bytes
    hex2bytes str_eq to_action read_groups key_loop verify_signature verify_hmac new_parser
    read_syscalls load_definitions sanitize catch_json run_with_callbacks start_trace wait_status
    syscall_args on_event on_status on_stop on_syscall_stop on_entry enter_verdict report_denial
    NatMap.find NatMap.assign NatMap.erase NatMap.is_empty trace_loop run_callbacks syscall_callback
    call write_call write_def write_args write put padding put_quoted put_chars put_char decide
    by_verdict get_action first_action any_match ask_user confirmed has_password ask_password
    confirm_password settle password_loop verify_password log_call noexcept setpid
run-Monitored_example = run-Monitored lib owner options machine 2 3 refl
