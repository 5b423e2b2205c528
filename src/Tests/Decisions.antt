-- ===== src/Tests/Decisions.antt =====
-- The callback of src/trace/tracer.h on the sample configuration and user.
use gravelbox.Base.{ℕ, ◌≡◌, ◌≢◌, refl, Bytes, codes, none, some, ok, arith, str_eq}
use gravelbox.Config.FileConfig.{
  get_action, first_action, any_match, has_password, verify_password, verify_hmac,
}
use gravelbox.Parser.Call.{call, write_call, noexcept}
use gravelbox.Parser.SyscallDef.{write as write_def, write_args}
use gravelbox.Parser.ArgType.{write}
use gravelbox.Parser.StrType.{put_quoted, put_chars, put_char}
use gravelbox.Ostream.Defs.{put, padding}
use gravelbox.NatMap.{find}
use gravelbox.Tracer.Decide.{
  Session, syscall_callback, decide, log_call, by_verdict, ask_user, confirmed, ask_password,
  confirm_password, settle, password_loop,
}
use gravelbox.Tracer.Approval.{Approves, syscall_callback-approved, password_loop_total}
use gravelbox.Tests.Sample.{memory, parser, execve_call, libraries, config, user}

abbrev session : Session ℕ
session = record { parser = parser; ui = 2 }

syscall_callback-approved_example :
    (text : Bytes) × (call memory parser execve_call ≡ ok text)
    × Approves libraries user config text 2
    × ((syscall_callback libraries user config memory execve_call session).1.parser ≡ parser)
unfolding syscall_callback call write_call find write_def write_args write put padding put_quoted
    put_chars put_char decide by_verdict get_action first_action any_match str_eq ask_user confirmed
    has_password ask_password confirm_password settle password_loop verify_password verify_hmac
    log_call noexcept
syscall_callback-approved_example =
    syscall_callback-approved libraries user config memory execve_call session refl

password_loop_total_example :
    (password_loop libraries user config 3 (some (codes "x")) 2).0 ≢ ok none
password_loop_total_example =
    password_loop_total libraries user config 3 (some (codes "x")) 2 (λ p h. omega arith)
