-- ===== src/Parser/Call.antt =====
-- `Parser` of src/parser/parser.h, and its call operator in parser.cpp.
use gravelbox.Base.{
  ℕ, zero, suc, ◌+◌, Bytes, codes, ltb, none, some, if◌then◌else◌, Outcome, ok, terminate, ◌>>=◌,
}
use gravelbox.Utils.{SyscallArgs, ArgArray, arg_at}
use gravelbox.NatMap
use gravelbox.NatMap.{NatMap}
use gravelbox.Ostream.Defs.{Stream, empty, put, put_unsigned, set_base}
use gravelbox.Ostream.Digits.{dec, hex}
use gravelbox.Parser.StrType.{ReadMemory}
use gravelbox.Parser.SyscallDef
use gravelbox.Parser.SyscallDef.{SyscallDef}

pub record Parser : Type 0 where
  pub target : ℕ
  pub syscall_map : NatMap SyscallDef

unfoldable pub setpid : ℕ → Parser → Parser
setpid pid p = record p { target = pid }

-- The loop over `args.args[i]`, with the rounds that are left and `i`.
unfoldable pub put_raw_args : ℕ → ℕ → ArgArray → Stream → Stream
put_raw_args zero i args os = os
put_raw_args (suc left) i args os = put_raw_args left (i + 1) args (
    put (if ltb i 5 then codes ", " else codes ")")
      (put_unsigned (arg_at args i) (put (codes "0x") os)))

-- A call with no definition.
unfoldable pub put_raw : SyscallArgs → Stream → Stream
unfolding set_base
put_raw args os =
    let head = put (if args.int80 then codes "syscall32(" else codes "syscall(") os in
    let number = put (codes ", ") (put_unsigned args.number (set_base dec head)) in
    put_raw_args 6 0 args.args (set_base hex number)

unfoldable pub write_call : ReadMemory → Parser → SyscallArgs → Stream → Outcome Stream
write_call read_memory p args os =
    let raw = put_raw args os in
    if args.int80 then ok raw else elim (NatMap.find args.number p.syscall_map) [
      | none ↦ ok raw
      | some d ↦ SyscallDef.write read_memory p.target d args.args os
    ]

-- A `noexcept` function ends the process where an exception would leave it.
unfoldable pub noexcept {ℓ} : {A : Type ℓ} → Outcome A → Outcome A
noexcept (ok a) = ok a
noexcept _ = terminate

-- operator()
unfoldable pub call : ReadMemory → Parser → SyscallArgs → Outcome Bytes
unfolding noexcept
call read_memory p args = noexcept (do os ← write_call read_memory p args empty; ok os.text)
