-- ===== src/Parser/RawInjective.antt =====
-- What the text of a system call with no definition says of the call, for src/parser/parser.cpp.
use gravelbox.Base.{
  ℕ, zero, suc, ◌+◌, ◌<◌, ◌≡◌, refl, sym, ap, ◌∙◌, Bytes, ◌∷◌, ◌++◌, codes, Bool, true, false,
  Bool-cases, ltb, if◌then◌else◌, inl, inr, ◌⊎◌, arith, none, ok, get_or,
}
use gravelbox.NatMap
use gravelbox.Parser.StrType.{ReadMemory}
use gravelbox.Parser.Call.{Parser, call, write_call, put_raw}
use gravelbox.Ostream.Defs.{empty}
use gravelbox.Parser.RawText.{put_raw-raw_text, raw_args_text, raw_text}
use gravelbox.Utils.{SyscallArgs, ArgArray, arg_at}
use gravelbox.Ostream.Digits.{dec, hex}
use gravelbox.Ostream.Number.{print_unsigned, IsDigit}
use gravelbox.Parser.Cut.{number_cut}

comma : IsDigit b',' → ⊥
comma d = omega arith

paren : IsDigit b')' → ⊥
paren d = omega arith

-- One argument, the separator behind it and the arguments that follow.
raw_args_cut :
    (left i : ℕ) (a b : ArgArray)
    → raw_args_text (suc left) i a ≡ raw_args_text (suc left) i b
    → (arg_at a i ≡ arg_at b i) × (raw_args_text left (i + 1) a ≡ raw_args_text left (i + 1) b)
unfolding raw_args_text
raw_args_cut left i a b e = elim (Bool-cases (ltb i 5)) [
  | inl y ↦
      let e' : codes "0x"
            ++ (print_unsigned hex (arg_at a i) ++ (codes ", " ++ raw_args_text left (i + 1) a))
          ≡ codes "0x"
            ++ (print_unsigned hex (arg_at b i) ++ (codes ", " ++ raw_args_text left (i + 1) b)) =
        rw y at e in
      let (here, rest) =
        number_cut hex (arg_at a i) (arg_at b i) b',' b',' (32 ∷ raw_args_text left (i + 1) a)
          (32 ∷ raw_args_text left (i + 1) b) comma comma (cc (e')) in
      (here, cc (rest))
  | inr n ↦
      let e' : codes "0x"
            ++ (print_unsigned hex (arg_at a i) ++ (codes ")" ++ raw_args_text left (i + 1) a))
          ≡ codes "0x"
            ++ (print_unsigned hex (arg_at b i) ++ (codes ")" ++ raw_args_text left (i + 1) b)) =
        rw n at e in
      number_cut hex (arg_at a i) (arg_at b i) b')' b')' (raw_args_text left (i + 1) a)
        (raw_args_text left (i + 1) b) paren paren (cc (e'))
]

raw_args_text-injective :
    (left i : ℕ) (a b : ArgArray)
    → raw_args_text left i a ≡ raw_args_text left i b
    → (j : ℕ) → j < left
    → arg_at a (i + j) ≡ arg_at b (i + j)
raw_args_text-injective zero i a b e j h = absurd (omega arith)
raw_args_text-injective (suc left) i a b e zero h =
    let same : arg_at a i ≡ arg_at b i = (raw_args_cut left i a b e).0 in
    let k : i + zero ≡ i = omega arith in rw k same
raw_args_text-injective (suc left) i a b e (suc j) h =
    let same : arg_at a (i + 1 + j) ≡ arg_at b (i + 1 + j) =
      raw_args_text-injective left (i + 1) a b (raw_args_cut left i a b e).1 j (omega arith) in
    let k : i + suc j ≡ i + 1 + j = omega arith in rw k same

entry_cut :
    (x y : Bool) (u v : Bytes)
    → (if x then codes "syscall32(" else codes "syscall(") ++ u
      ≡ (if y then codes "syscall32(" else codes "syscall(") ++ v
    → (x ≡ y) × (u ≡ v)
entry_cut true true u v e = (refl, cc (e))
entry_cut true false u v e = absurd (omega (arith, ap (λ (s : Bytes). get_or s 7 0) e))
entry_cut false true u v e = absurd (omega (arith, ap (λ (s : Bytes). get_or s 7 0) e))
entry_cut false false u v e = (refl, cc (e))

raw_text-injective : (c d : SyscallArgs) → raw_text c ≡ raw_text d → c ≡ d
unfolding raw_text
raw_text-injective c d e =
    let (entry, behind) = entry_cut c.int80 d.int80 _ _ e in
    let (number, args) =
      number_cut dec c.number d.number b',' b',' (32 ∷ raw_args_text 6 0 c.args)
        (32 ∷ raw_args_text 6 0 d.args) comma comma (cc (behind)) in
    let same = raw_args_text-injective 6 0 c.args d.args (cc (args)) in
    unfold arg_at in
    grind (
      arith,
      entry,
      number,
      same 0 (omega arith),
      same 1 (omega arith),
      same 2 (omega arith),
      same 3 (omega arith),
      same 4 (omega arith),
      same 5 (omega arith),
    )

-- The parser has no definition for the call: it entered as a 32-bit call, or its number is not known.
abbrev pub HasNoDefinition : Parser → SyscallArgs → Type 0
HasNoDefinition p c = (c.int80 ≡ true) ⊎ (NatMap.find c.number p.syscall_map ≡ none)

pub call-raw_text :
    (read_memory : ReadMemory) (p : Parser) (c : SyscallArgs)
    → HasNoDefinition p c
    → call read_memory p c ≡ ok (raw_text c)
unfolding call write_call
call-raw_text read_memory p c h =
    let text : (put_raw c empty).text ≡ raw_text c = put_raw-raw_text c empty refl in
    elim h [
      | inl y ↦ simp y (rw text refl)
      | inr n ↦ elim (Bool-cases c.int80) [
        | inl y ↦ simp y (rw text refl)
        | inr m ↦ simp (m, n) (rw text refl)
      ]
    ]

-- For every parser and two calls that it has no definition for: if the call operator returns the same
-- text for both, they are the same call, with the same number, six arguments and way of entry.
pub call-injective :
    (read_memory : ReadMemory) (p : Parser) (c d : SyscallArgs)
    → HasNoDefinition p c
    → HasNoDefinition p d
    → call read_memory p c ≡ call read_memory p d
    → c ≡ d
call-injective read_memory p c d hc hd e =
    let same : ok (raw_text c) ≡ ok (raw_text d) =
      sym (call-raw_text read_memory p c hc) ∙ e ∙ call-raw_text read_memory p d hd in
    raw_text-injective c d (cc (same))
