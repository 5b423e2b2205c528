-- ===== src/Parser/SameName.antt =====
-- Which system call the text of a call names, for the call operator of src/parser/parser.cpp.
use gravelbox.Base.{
  ℕ, ◌≡◌, ◌≢◌, refl, sym, ◌∙◌, ap, Bytes, ◌∷◌, ◌++◌, codes, if◌then◌else◌, Bool-cases, All,
  Option-cases, none, some, inl, inr, ok, arith,
}
use gravelbox.Utils.{SyscallArgs}
use gravelbox.NatMap
use gravelbox.Parser.StrType.{ReadMemory}
use gravelbox.Parser.ArgText.{HoldsBytes}
use gravelbox.Parser.RawText.{raw_text, raw_args_text}
use gravelbox.Parser.RawInjective.{HasNoDefinition, call-raw_text}
use gravelbox.Ostream.Digits.{dec}
use gravelbox.Ostream.Number.{print_unsigned}
use gravelbox.Parser.Call.{Parser, call, setpid}
use gravelbox.Parser.SyscallDef.{SyscallDef}
use gravelbox.Parser.Cut.{cut}
use gravelbox.Parser.SameCall.{def_text-args, call-def_text}

-- The name that a call is shown under.
abbrev pub name_of : Parser → SyscallArgs → Bytes
name_of p c =
    if c.int80
    then codes "syscall32"
    else elim (NatMap.find c.number p.syscall_map) [ none ↦ codes "syscall" | some f ↦ f.fname ]

abbrev pub NotParen : ℕ → Type 0
NotParen x = x ≢ b'('

-- No definition has a parenthesis in its name.
abbrev pub NamesPlain : Parser → Type 0
NamesPlain p =
    (k : ℕ) (f : SyscallDef) → NatMap.find k p.syscall_map ≡ some f → All NotParen f.fname

name_of-NotParen : (p : Parser) (c : SyscallArgs) → NamesPlain p → All NotParen (name_of p c)
name_of-NotParen p c plain = elim (Bool-cases c.int80) [
  | inl y ↦ rw y (ground arith)
  | inr n ↦ rw n (elim (Option-cases (NatMap.find c.number p.syscall_map)) [
    | inl e ↦ rw e (ground arith)
    | inr (f, e) ↦ rw e (plain c.number f e)
  ])
]

-- The name of a call that has no definition.
abbrev raw_name : SyscallArgs → Bytes
raw_name c = if c.int80 then codes "syscall32" else codes "syscall"

name_of-raw_name : (p : Parser) (c : SyscallArgs) → HasNoDefinition p c → raw_name c ≡ name_of p c
name_of-raw_name p c (inl y) = rw y refl
name_of-raw_name p c (inr e) = rw e refl

raw-named : (c : SyscallArgs) → (rest : Bytes) × (raw_text c ≡ raw_name c ++ b'(' ∷ rest)
unfolding raw_text
raw-named c = elim (Bool-cases c.int80) [
  | inl y ↦ rw y (print_unsigned dec c.number ++ (codes ", " ++ raw_args_text 6 0 c.args), refl)
  | inr n ↦ rw n (print_unsigned dec c.number ++ (codes ", " ++ raw_args_text 6 0 c.args), refl)
]

module _ (m : ReadMemory) (bytes : HoldsBytes m) (p : Parser) (c : SyscallArgs) (r : Bytes)
    (shown : call m p c ≡ ok r) where
  raw-shown : HasNoDefinition p c → (rest : Bytes) × (r ≡ name_of p c ++ b'(' ∷ rest)
  raw-shown h =
      let same : ok r ≡ ok (raw_text c) = sym shown ∙ call-raw_text m p c h in
      let (rest, named) = raw-named c in
      (rest, cc (same) ∙ named ∙ ap (λ (s : Bytes). s ++ b'(' ∷ rest) (name_of-raw_name p c h))

  -- The text is the name, a parenthesis, and more.
  call-named : (rest : Bytes) × (r ≡ name_of p c ++ b'(' ∷ rest)
  call-named = elim (Bool-cases c.int80) [
    | inl y ↦ raw-shown (inl y)
    | inr n ↦ elim (Option-cases (NatMap.find c.number p.syscall_map)) [
      | inl e ↦ raw-shown (inr e)
      | inr (f, e) ↦
          let (x, hx, sx) =
            def_text-args m p.target f c.args r (call-def_text m bytes p c f r n e shown) in
          rw (n, e) (x ++ codes ")", sym sx)
    ]
  ]

-- Two system calls, made at any two times by any two threads, with the memory that each has then, of
-- bytes, where no definition has an opening parenthesis in its name: if the call operator returns the
-- same text for both, they have the same name, which is that of the definition, and `syscall` or
-- `syscall32` for a call that has none.
pub call-name_of :
    (m m' : ReadMemory)
    → HoldsBytes m
    → HoldsBytes m'
    → (p : Parser) (pid : ℕ) (c d : SyscallArgs) (r : Bytes) → NamesPlain p
    → call m p c ≡ ok r
    → call m' (setpid pid p) d ≡ ok r
    → name_of p c ≡ name_of p d
unfolding setpid
call-name_of m m' bytes bytes' p pid c d r plain ec ed =
    let (u, hu) = call-named m bytes p c r ec in
    let (v, hv) = call-named m' bytes' (setpid pid p) d r ed in
    (cut NotParen (name_of p c) (name_of p d) b'(' b'(' u v (name_of-NotParen p c plain)
      (name_of-NotParen p d plain) (λ n. n refl) (λ n. n refl) (sym hu ∙ hv)).0
