-- ===== src/Parser/CallSpec.antt =====
-- The call operator of src/parser/parser.cpp against the text of a call.
use gravelbox.Base.{
  ℕ, zero, suc, ◌+◌, ◌≤◌, ◌<◌, ◌≡◌, ◌≢◌, refl, sym, ◌∙◌, ap, Bytes, List, [], ◌∷◌, ◌++◌,
  append_assoc, append-nil, codes, Bool, true, false, ◌==◌, ltb, leb, lt→ltb, if◌then◌else◌, length,
  Option, none, some, Option-cases, inl, inr, Outcome, ok, throw, terminate, Bool-cases, arith,
}
use gravelbox.Utils.{SyscallArgs}
use gravelbox.NatMap
use gravelbox.Ostream.Defs.{Stream, empty}
use gravelbox.Parser.StrType.{ReadMemory}
use gravelbox.Parser.ArgText.{HoldsBytes, Appends}
use gravelbox.Parser.Call.{Parser, call, noexcept, write_call, put_raw}
use gravelbox.Parser.CallText.{def_text, write-def_text}
use gravelbox.Parser.RawText.{raw_text, put_raw-raw_text, put_raw-IsPlain}

-- What the call operator returns; `none` stands for the end of the process.
unfoldable pub call_text : ReadMemory → Parser → SyscallArgs → Option Bytes
unfolding def_text
call_text read_memory p c =
    if c.int80 then some (raw_text c) else elim (NatMap.find c.number p.syscall_map) [
      | none ↦ some (raw_text c)
      | some d ↦ def_text read_memory p.target d c.args
    ]

-- The outcome of a function that must not throw.
abbrev pub or_terminate : Option Bytes → Outcome Bytes
or_terminate none = terminate
or_terminate (some t) = ok t

noexcept-Appends :
    (m : Outcome Stream) (a : Option Bytes)
    → Appends m empty a
    → noexcept (gravelbox.Base.◌>>=◌ m (λ os. ok os.text)) ≡ or_terminate a
unfolding noexcept
noexcept-Appends (ok os) none p = absurd (p os refl)
noexcept-Appends (throw x) none p = refl
noexcept-Appends terminate none p = refl
noexcept-Appends m (some t) (os, h, e, w) = rw h (rw e refl)

write_call-Appends :
    (read_memory : ReadMemory)
    → HoldsBytes read_memory
    → (p : Parser) (c : SyscallArgs)
    → Appends (write_call read_memory p c empty) empty (call_text read_memory p c)
unfolding write_call call_text
write_call-Appends read_memory bytes p c = elim (Bool-cases c.int80) [
  | inl y ↦ simp y (put_raw c empty, refl, put_raw-raw_text c empty refl, put_raw-IsPlain c empty)
  | inr n ↦ simp n (elim (Option-cases (NatMap.find c.number p.syscall_map)) [
    | inl e ↦ rw e (put_raw c empty, refl, put_raw-raw_text c empty refl, put_raw-IsPlain c empty)
    | inr (d, e) ↦ rw e (write-def_text read_memory bytes p.target c.args d empty refl)
  ])
]

-- For every call and parser, if the memory holds bytes: the call operator returns `call_text`, and ends
-- the process exactly where there is none.
pub call-call_text :
    (read_memory : ReadMemory)
    → HoldsBytes read_memory
    → (p : Parser) (c : SyscallArgs)
    → call read_memory p c ≡ or_terminate (call_text read_memory p c)
unfolding call
call-call_text read_memory bytes p c =
    noexcept-Appends (write_call read_memory p c empty) (call_text read_memory p c)
      (write_call-Appends read_memory bytes p c)
