-- ===== src/Parser/Printable.antt =====
-- Of which characters the text of a system call is made, for the call operator of src/parser/parser.cpp.
use gravelbox.Base.{
  ℕ, zero, suc, ◌+◌, ◌%◌, ◌^◌, ◌-◌, ◌≡◌, refl, sym, ◌∙◌, Bytes, List, [], ◌∷◌, ◌++◌, codes, Bool,
  true, false, ◌==◌, leb, ltb, if◌then◌else◌, length, All, All-append, All-weaken, Option, none,
  some, Option-cases, Bool-cases, inl, inr, ok, arith,
}
use gravelbox.Base.Options.{◌>>=◌}
use gravelbox.Utils.{SyscallArgs, ArgArray, arg_at, Reply, done, errno}
use gravelbox.NatMap
use gravelbox.NatMap.{NatMap}
use gravelbox.Ostream.Digits.{Radix, dec, hex}
use gravelbox.Ostream.Number.{print_unsigned, print_signed, IsDigit}
use gravelbox.Ostream.Signed.{print_unsigned-IsDigit}
use gravelbox.Parser.StrType.{ReadMemory, remote_iovecs}
use gravelbox.Parser.StrText.{IsByte}
use gravelbox.Parser.Escape.{IsPrint, quoted-IsPrint}
use gravelbox.Parser.ArgType.{
  ArgType, unknown_type, sint32_type, uint32_type, sint64_type, uint64_type, ptr_type, str_type,
}
use gravelbox.Parser.ArgText.{HoldsBytes, memory_text, arg_text}
use gravelbox.Parser.SyscallDef.{SyscallDef}
use gravelbox.Parser.Call.{Parser, call}
use gravelbox.Parser.CallText.{args_text, def_text}
use gravelbox.Parser.RawText.{raw_args_text, raw_text}
use gravelbox.Parser.CallSpec.{call_text, or_terminate, call-call_text}

-- A text, where there is one, is made of printable characters.
abbrev Prints : Option Bytes → Type 0
Prints none = Unit
Prints (some t) = All IsPrint t

-- The definitions of a parser have names of printable characters.
abbrev pub NamesPrint : NatMap SyscallDef → Type 0
NamesPrint m = (k : ℕ) (d : SyscallDef) → NatMap.find k m ≡ some d → All IsPrint d.fname

append-IsPrint : (s t : Bytes) → All IsPrint s → All IsPrint t → All IsPrint (s ++ t)
append-IsPrint s t = All-append IsPrint s t

Prints-bind :
    (a : Option Bytes) (f : Bytes → Option Bytes)
    → Prints a
    → ((t : Bytes) → All IsPrint t → Prints (f t))
    → Prints (a >>= f)
Prints-bind none f h k = tt
Prints-bind (some t) f h k = k t h

test-IsPrint :
    (b : Bool) (s t : Bytes) → All IsPrint s → All IsPrint t → All IsPrint (if b then s else t)
test-IsPrint true s t h k = h
test-IsPrint false s t h k = k

print_unsigned-IsPrint : (b : Radix) (n : ℕ) → All IsPrint (print_unsigned b n)
print_unsigned-IsPrint b n =
    All-weaken (λ (c : ℕ) (d : IsDigit c). ground arith) (print_unsigned b n)
      (print_unsigned-IsDigit b n)

print_signed-IsPrint : (bits n : ℕ) → All IsPrint (print_signed dec bits n)
unfolding print_signed
print_signed-IsPrint bits n =
    test-IsPrint (ltb n (2 ^ (bits - 1))) _ _ (print_unsigned-IsPrint dec n)
      ((omega arith, omega arith), print_unsigned-IsPrint dec (2 ^ bits - n))

module _ (read_memory : ReadMemory) (bytes : HoldsBytes read_memory) (target : ℕ) where
  memory_text-Prints :
      (r : Reply Bytes) → ((buf : Bytes) → r ≡ done buf → All IsByte buf) → Prints (memory_text r)
  unfolding memory_text
  memory_text-Prints (done buf) h = quoted-IsPrint buf (h buf refl)
  memory_text-Prints (errno n) h = ground arith

  arg_text-Prints : (ty : ArgType) (v : ℕ) → Prints (arg_text read_memory target ty v)
  unfolding arg_text
  arg_text-Prints unknown_type v = append-IsPrint (codes "[0x") _ (ground arith) (
      append-IsPrint (print_unsigned hex v) (codes "]") (print_unsigned-IsPrint hex v)
        (ground arith))
  arg_text-Prints sint32_type v = print_signed-IsPrint 32 (v % 2 ^ 32)
  arg_text-Prints uint32_type v = print_unsigned-IsPrint dec (v % 2 ^ 32)
  arg_text-Prints sint64_type v = print_signed-IsPrint 64 v
  arg_text-Prints uint64_type v = print_unsigned-IsPrint dec v
  arg_text-Prints ptr_type v =
      test-IsPrint (v == 0) (codes "NULL") _ (ground arith)
        (append-IsPrint (codes "0x") _ (ground arith) (print_unsigned-IsPrint hex v))
  arg_text-Prints str_type v = memory_text-Prints _ (bytes target (remote_iovecs v))

  args_text-Prints :
      (args : ArgArray) (tys : List ArgType) (i : ℕ)
      → Prints (args_text read_memory target args tys i)
  unfolding args_text
  args_text-Prints args [] i = tt
  args_text-Prints args (ty ∷ tys) i =
      Prints-bind (arg_text read_memory target ty (arg_at args i)) _
        (arg_text-Prints ty (arg_at args i))
        (λ t ht.
          Prints-bind (args_text read_memory target args tys (i + 1)) _
            (args_text-Prints args tys (i + 1))
            (λ r hr.
              append-IsPrint (if ltb 0 i then codes ", " else []) (t ++ r)
                (test-IsPrint (ltb 0 i) (codes ", ") [] (ground arith) tt)
                (append-IsPrint t r ht hr)))

  def_text-Prints :
      (d : SyscallDef) (args : ArgArray)
      → All IsPrint d.fname
      → Prints (def_text read_memory target d args)
  unfolding def_text
  def_text-Prints d args h = elim (Bool-cases (leb (length d.argtypes) 6)) [
    | inr n ↦ rw n tt
    | inl y ↦ rw y (
        Prints-bind (args_text read_memory target args d.argtypes 0) _
          (args_text-Prints args d.argtypes 0)
          (λ t ht. append-IsPrint d.fname _ h (
            append-IsPrint (codes "(") _ (ground arith)
              (append-IsPrint t (codes ")") ht (ground arith)))))
  ]

raw_args_text-IsPrint : (left i : ℕ) (a : ArgArray) → All IsPrint (raw_args_text left i a)
unfolding raw_args_text
raw_args_text-IsPrint zero i a = tt
raw_args_text-IsPrint (suc left) i a = append-IsPrint (codes "0x") _ (ground arith) (
    append-IsPrint (print_unsigned hex (arg_at a i)) _ (print_unsigned-IsPrint hex (arg_at a i)) (
      append-IsPrint (if ltb i 5 then codes ", " else codes ")") _
        (test-IsPrint (ltb i 5) (codes ", ") (codes ")") (ground arith) (ground arith))
        (raw_args_text-IsPrint left (i + 1) a)))

raw_text-IsPrint : (c : SyscallArgs) → All IsPrint (raw_text c)
unfolding raw_text
raw_text-IsPrint c =
    append-IsPrint (if c.int80 then codes "syscall32(" else codes "syscall(") _
      (test-IsPrint c.int80 (codes "syscall32(") (codes "syscall(") (ground arith) (ground arith))
      (append-IsPrint (print_unsigned dec c.number) _ (print_unsigned-IsPrint dec c.number) (
        append-IsPrint (codes ", ") (raw_args_text 6 0 c.args) (ground arith)
          (raw_args_text-IsPrint 6 0 c.args)))

call_text-Prints :
    (read_memory : ReadMemory)
    → HoldsBytes read_memory
    → (p : Parser) → NamesPrint p.syscall_map
    → (c : SyscallArgs) → Prints (call_text read_memory p c)
unfolding call_text
call_text-Prints read_memory bytes p names c = elim (Bool-cases c.int80) [
  | inl y ↦ simp y (raw_text-IsPrint c)
  | inr n ↦ simp n (elim (Option-cases (NatMap.find c.number p.syscall_map)) [
    | inl e ↦ rw e (raw_text-IsPrint c)
    | inr (d, e) ↦ rw e (def_text-Prints read_memory bytes p.target d c.args (names c.number d e))
  ])
]

or_terminate-IsPrint :
    (a : Option Bytes) (text : Bytes) → Prints a → or_terminate a ≡ ok text → All IsPrint text
or_terminate-IsPrint none text h e = absurd (cc)
or_terminate-IsPrint (some t) text h e = let same : t ≡ text = cc (e) in rw (← same) h

-- If the memory holds bytes and the names in the definitions are printable: whatever the target has in
-- its registers and its memory, the text that the parser makes of a call is printable ASCII.
pub call-IsPrint :
    (read_memory : ReadMemory)
    → HoldsBytes read_memory
    → (p : Parser) → NamesPrint p.syscall_map
    → (c : SyscallArgs) (text : Bytes) → call read_memory p c ≡ ok text
    → All IsPrint text
call-IsPrint read_memory bytes p names c text h =
    or_terminate-IsPrint (call_text read_memory p c) text
      (call_text-Prints read_memory bytes p names c)
      (sym (call-call_text read_memory bytes p c) ∙ h)
