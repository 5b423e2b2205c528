-- ===== src/Tests/Texts.antt =====
-- The text of sample calls, as src/parser makes it.
use gravelbox.Base.{
  ℕ, ◌≡◌, ◌%◌, ◌^◌, none, ltb, if◌then◌else◌, refl, Bytes, [], ◌∷◌, ◌++◌, codes, some, All, arith,
  true, ok, inl, inr, ◌+◌, ◌==◌, Bool-cases,
}
use gravelbox.Ostream.Defs.{empty, put, padding}
use gravelbox.Ostream.Plain.{IsPlain}
use gravelbox.Parser.StrType.{put_quoted, put_chars, put_char, remote_iovecs, max_str_len}
use gravelbox.Parser.Iovecs.{address_of, InPage, remote_iovecs-InPage}
use gravelbox.Parser.StrText.{IsByte, quoted, put_quoted-quoted}
use gravelbox.Parser.Escape.{IsPrint}
use gravelbox.Parser.ArgText.{HoldsBytes}
use gravelbox.Parser.Call.{call, write_call, noexcept}
use gravelbox.Parser.SyscallDef.{write as write_def, write_args}
use gravelbox.Parser.Printable.{NamesPrint}
use gravelbox.Parser.RawInjective.{call-injective}
use gravelbox.Ui.Lines.{SentAll, ask-IsPrint}
use gravelbox.Ui.Pinentry.{Conn, ask}
use gravelbox.Utils.{SyscallArgs, arg_at}
use gravelbox.NatMap
use gravelbox.Ostream.Number.{print_signed}
use gravelbox.Parser.ArgType.{str_type, sint32_type, write}
use gravelbox.Parser.CallSpec.{call_text, or_terminate, call-call_text}
use gravelbox.Tests.Sample.{memory, parser, execve_call}

abbrev buffer : Bytes
buffer = codes "ls\n" ++ (0 ∷ [])

buffer-IsByte : All IsByte buffer
buffer-IsByte = ground arith

memory-HoldsBytes : HoldsBytes memory
memory-HoldsBytes pid pieces buf h = ground arith

call-call_text_example :
    call memory parser execve_call ≡ or_terminate (call_text memory parser execve_call)
call-call_text_example = call-call_text memory memory-HoldsBytes parser execve_call

put_quoted-quoted_example :
    ((put_quoted buffer empty).text ≡ empty.text ++ quoted buffer)
    × IsPlain (put_quoted buffer empty)
put_quoted-quoted_example = put_quoted-quoted buffer empty buffer-IsByte refl

remote_iovecs-InPage_example :
    All InPage (remote_iovecs 4090)
    × ((i : ℕ)
        → address_of (remote_iovecs 4090) i
          ≡ (if ltb i max_str_len then some ((4090 + i) % 2 ^ 64) else none))
remote_iovecs-InPage_example = remote_iovecs-InPage 4090 (omega arith)

abbrev old_entry : SyscallArgs
old_entry = record execve_call { int80 = true }

-- The registers of `old_entry`, one by one.
abbrev same_entry : SyscallArgs
same_entry = record {
  number = 50 + 9;
  args = record {
    a0 = arg_at old_entry.args 0;
    a1 = arg_at old_entry.args 1;
    a2 = arg_at old_entry.args 2;
    a3 = arg_at old_entry.args 3;
    a4 = arg_at old_entry.args 4;
    a5 = arg_at old_entry.args 5;
  };
  int80 = true;
}

call-injective_example : old_entry ≡ same_entry
unfolding arg_at
call-injective_example =
    call-injective memory parser old_entry same_entry (inl refl) (inl refl) refl

parser-NamesPrint : NamesPrint parser.syscall_map
unfolding NatMap.find
parser-NamesPrint k d h = elim (Bool-cases (59 == k)) [
  | inl y ↦
      let known : record { fname = codes "execve"; argtypes = str_type ∷ sint32_type ∷ [] } ≡ d =
        ground arith in
      rw (← known) (ground arith)
  | inr n ↦ absurd (cc (h, n))
]

-- The text of `execve_call`, the end of the line in the memory as two characters.
shown_call : call memory parser execve_call ≡ ok (codes "execve(\"ls\\n\", 5)")
unfolding call write_call NatMap.find write_def write_args write put padding put_quoted put_chars
    put_char noexcept print_signed arg_at
shown_call = refl

abbrev asked : Conn
asked = record { sent = codes "OPTION grab" ∷ []; incoming = codes "OK" ∷ [] }

ask-IsPrint_example : SentAll (All IsPrint) (ask 7 (codes "execve(\"ls\\n\", 5)") asked).1
ask-IsPrint_example =
    ask-IsPrint memory memory-HoldsBytes parser parser-NamesPrint execve_call
      (codes "execve(\"ls\\n\", 5)") shown_call 7 asked (ground arith)
