-- ===== src/Tests/Calls.antt =====
-- Pairs of system calls that src/parser shows by one text.
use gravelbox.Base.{
  Bool-cases, inl, inr, ◌+◌, ◌^◌, ◌≡◌, refl, Bytes, ◌∷◌, ◌++◌, codes, arith, ok, false, [], ◌==◌,
  if◌then◌else◌,
}
use gravelbox.Ostream.Defs.{put, padding}
use gravelbox.Ostream.Number.{print_signed}
use gravelbox.NatMap
use gravelbox.Utils.{SyscallArgs, done, arg_at}
use gravelbox.Parser.StrType.{ReadMemory, put_quoted, put_chars, put_char, remote_iovecs}
use gravelbox.Parser.ArgType.{str_type, sint32_type, write}
use gravelbox.Parser.ArgText.{HoldsBytes}
use gravelbox.Parser.SyscallDef.{SyscallDef, write as write_def, write_args}
use gravelbox.Parser.Call.{Parser, call, write_call, noexcept, setpid}
use gravelbox.Parser.Shown.{SameArgs, IsRegisters}
use gravelbox.Parser.SameCall.{call-SameArgs}
use gravelbox.Parser.SameName.{NamesPlain, name_of, call-name_of}
use gravelbox.Parser.TwoStrings.{call-between}
use gravelbox.Tests.Sample.{memory, parser, execve_call}

-- Another text behind the end of the string.
abbrev other_memory : ReadMemory
other_memory pid pieces = done (codes "ls\n" ++ (0 ∷ 200 ∷ []))

-- Another high half of the second register.
abbrev wide_call : SyscallArgs
wide_call = record execve_call { args = record execve_call.args { a1 = 5 + 2 ^ 32 } }

abbrev execve : SyscallDef
execve = record { fname = codes "execve"; argtypes = str_type ∷ sint32_type ∷ [] }

memory-HoldsBytes : HoldsBytes memory
memory-HoldsBytes pid pieces buf h = ground arith

other_memory-HoldsBytes : HoldsBytes other_memory
other_memory-HoldsBytes pid pieces buf h = ground arith

execve_call-IsRegisters : IsRegisters execve_call.args
unfolding arg_at
execve_call-IsRegisters j = ground arith

wide_call-IsRegisters : IsRegisters wide_call.args
unfolding arg_at
wide_call-IsRegisters j = ground arith

shown : call memory parser execve_call ≡ ok (codes "execve(\"ls\\n\", 5)")
unfolding call write_call NatMap.find write_def write_args write put padding put_quoted put_chars
    put_char noexcept print_signed arg_at
shown = refl

wide_shown : call other_memory (setpid 200 parser) wide_call ≡ ok (codes "execve(\"ls\\n\", 5)")
unfolding call write_call NatMap.find write_def write_args write put padding put_quoted put_chars
    put_char noexcept print_signed arg_at setpid
wide_shown = refl

call-SameArgs_example :
    SameArgs memory other_memory 100 200 execve_call.args wide_call.args execve.argtypes 0
unfolding NatMap.find
call-SameArgs_example =
    call-SameArgs memory other_memory memory-HoldsBytes other_memory-HoldsBytes parser 200
      execve_call wide_call execve (codes "execve(\"ls\\n\", 5)") refl refl refl refl
      execve_call-IsRegisters wide_call-IsRegisters shown wide_shown

abbrev renaming : Parser
renaming = record {
  target = 100;
  syscall_map = (82, record { fname = codes "rename"; argtypes = str_type ∷ str_type ∷ [] }) ∷ [];
}

abbrev rename_call : SyscallArgs
rename_call = record {
  number = 82;
  args = record { a0 = 4096; a1 = 8192; a2 = 0; a3 = 0; a4 = 0; a5 = 0 };
  int80 = false;
}

-- One string at the address 4096, and another one anywhere else.
abbrev two_strings : Bytes → Bytes → ReadMemory
two_strings s t pid [] = done []
two_strings s t pid (piece ∷ pieces) = done ((if piece.iov_base == 4096 then s else t) ++ (0 ∷ []))

abbrev quote_in_first : ReadMemory
quote_in_first = two_strings (codes "a\", \"b") (codes "c")

abbrev quote_in_second : ReadMemory
quote_in_second = two_strings (codes "a") (codes "b\", \"c")

quote_in_first-HoldsBytes : HoldsBytes quote_in_first
quote_in_first-HoldsBytes pid [] buf h = ground arith
quote_in_first-HoldsBytes pid (piece ∷ pieces) buf h = ground arith

quote_in_second-HoldsBytes : HoldsBytes quote_in_second
quote_in_second-HoldsBytes pid [] buf h = ground arith
quote_in_second-HoldsBytes pid (piece ∷ pieces) buf h = ground arith

-- rename("a\", \"b", "c") and rename("a", "b\", \"c").
call-between_example :
    (r : Bytes) × (call quote_in_first renaming rename_call ≡ ok r)
    × (call quote_in_second (setpid 200 renaming) rename_call ≡ ok r)
unfolding NatMap.find remote_iovecs arg_at
call-between_example =
    call-between quote_in_first quote_in_second quote_in_first-HoldsBytes quote_in_second-HoldsBytes
      renaming 200 rename_call rename_call
      (record { fname = codes "rename"; argtypes = str_type ∷ str_type ∷ [] }) (codes "a")
      (codes "b") (codes "c") refl refl refl refl refl
      (codes "a\", \"b" ++ (0 ∷ []), refl, refl, ground arith)
      (codes "c" ++ (0 ∷ []), refl, refl, ground arith)
      (codes "a" ++ (0 ∷ []), refl, refl, ground arith)
      (codes "b\", \"c" ++ (0 ∷ []), refl, refl, ground arith)

parser-NamesPlain : NamesPlain parser
unfolding NatMap.find
parser-NamesPlain k f h = elim (Bool-cases (59 == k)) [
  | inl y ↦ let known : execve ≡ f = ground arith in rw (← known) (ground arith)
  | inr n ↦ absurd (cc (h, n))
]

call-name_of_example : name_of parser execve_call ≡ name_of parser wide_call
call-name_of_example =
    call-name_of memory other_memory memory-HoldsBytes other_memory-HoldsBytes parser 200
      execve_call wide_call (codes "execve(\"ls\\n\", 5)") parser-NamesPlain shown wide_shown
