-- ===== src/Parser/Interface.antt =====
-- What the tracer asks of a parser (`IsParser` of src/type_traits.h), with `Parser` of
-- src/parser/parser.h and `DebugParser` of src/parser/debug_parser.h as two.
use gravelbox.Base.{ℕ, Bytes, Outcome, ok}
use gravelbox.Utils.{SyscallArgs}
use gravelbox.Parser.StrType.{ReadMemory}
use gravelbox.Parser.Call
use gravelbox.Parser.Call.{Parser}
use gravelbox.Parser.Debug.{debug_call, debug_setpid}

pub record IsParser (P : Type 0) : Type 0 where
  pub setpid : ℕ → P → P
  pub call : P → SyscallArgs → Outcome Bytes

abbrev pub parser : ReadMemory → IsParser Parser
parser read_memory = record { setpid = Call.setpid; call = Call.call read_memory }

-- It has no members.
abbrev pub debug_parser : IsParser (Unit {0})
debug_parser = record { setpid = debug_setpid; call = λ s c. ok (debug_call c) }
