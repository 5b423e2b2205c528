-- ===== src/Parser/Told.antt =====
-- What the print of one argument says of its value, for the classes of src/parser/argtypes.cpp.
use gravelbox.Base.{
  ℕ, ◌-◌, ◌%◌, ◌^◌, ◌<◌, ◌≡◌, ◌≢◌, sym, ap, ◌∙◌, Bytes, [], ◌++◌, codes, Bool, true, false,
  Bool-cases, ◌==◌, ltb, if◌then◌else◌, All, All-append, All-weaken, some, inl, inr, arith,
}
use gravelbox.Utils.{Reply, done, errno}
use gravelbox.Ostream.Digits.{dec, hex}
use gravelbox.Ostream.Number.{print_unsigned, print_signed, IsDigit}
use gravelbox.Ostream.Signed.{print_unsigned-IsDigit, read_signed, read_signed-print_signed}
use gravelbox.Parser.StrType.{ReadMemory, efault, remote_iovecs}
use gravelbox.Parser.StrText.{c_string}
use gravelbox.Parser.ArgType.{
  ArgType, unknown_type, sint32_type, uint32_type, sint64_type, uint64_type, ptr_type, str_type,
}
use gravelbox.Parser.ArgText.{arg_text}
use gravelbox.Parser.Cut.{number_cut, print_unsigned-injective}

-- What was read is not to be told apart: the same C string, or nothing that can be read.
abbrev pub SameString : Reply Bytes → Reply Bytes → Type 0
SameString (done a) (done b) = c_string a ≡ c_string b
SameString (errno m) (errno n) = (m ≡ efault) × (n ≡ efault)
SameString _ _ = ⊥

-- A 32-bit type shows the low half of a register, and a string what the register points to.
abbrev pub SameArg : ReadMemory → ReadMemory → ℕ → ℕ → ArgType → ℕ → ℕ → Type 0
SameArg m m' k l sint32_type v w = v % 2 ^ 32 ≡ w % 2 ^ 32
SameArg m m' k l uint32_type v w = v % 2 ^ 32 ≡ w % 2 ^ 32
SameArg m m' k l str_type v w = SameString (m k (remote_iovecs v)) (m' l (remote_iovecs w))
SameArg m m' k l _ v w = v ≡ w

abbrev pub is_string : ArgType → Bool
is_string str_type = true
is_string _ = false

-- A character that neither separates arguments nor opens a string.
abbrev pub IsWord : ℕ → Type 0
IsWord c = (c ≢ b',') × (c ≢ b')') × (c ≢ b'"')

IsDigit-IsWord : (c : ℕ) → IsDigit c → IsWord c
IsDigit-IsWord c h = (λ e. omega arith, λ e. omega arith, λ e. omega arith)

number-IsWord : (b : gravelbox.Ostream.Digits.Radix) (n : ℕ) → All IsWord (print_unsigned b n)
number-IsWord b n = All-weaken IsDigit-IsWord (print_unsigned b n) (print_unsigned-IsDigit b n)

minus-IsWord : IsWord b'-'
minus-IsWord = (λ e. omega arith, λ e. omega arith, λ e. omega arith)

signed-IsWord : (bits n : ℕ) → All IsWord (print_signed dec bits n)
unfolding print_signed
signed-IsWord bits n = elim (Bool-cases (ltb n (2 ^ (bits - 1)))) [
  | inl y ↦ rw y (number-IsWord dec n)
  | inr m ↦ rw m (minus-IsWord, number-IsWord dec (2 ^ bits - n))
]

pointer-IsWord :
    (v : ℕ) → All IsWord (if v == 0 then codes "NULL" else codes "0x" ++ print_unsigned hex v)
pointer-IsWord v = elim (Bool-cases (v == 0)) [
  | inl y ↦ rw y (ground arith)
  | inr m ↦ rw m (All-append IsWord (codes "0x") _ (ground arith) (number-IsWord hex v))
]

module _ (m : ReadMemory) (k : ℕ) where
  -- An argument that is no string is printed in one word.
  pub arg_text-IsWord :
      (ty : ArgType) (v : ℕ) (s : Bytes)
      → is_string ty ≡ false
      → arg_text m k ty v ≡ some s
      → All IsWord s
  unfolding arg_text
  arg_text-IsWord unknown_type v s h e =
      let shown : All IsWord (codes "[0x" ++ (print_unsigned hex v ++ codes "]")) =
        All-append IsWord (codes "[0x") _ (ground arith) (
          All-append IsWord (print_unsigned hex v) (codes "]") (number-IsWord hex v)
            (ground arith)) in
      let same : codes "[0x" ++ (print_unsigned hex v ++ codes "]") ≡ s = cc (e) in
      rw (← same) shown
  arg_text-IsWord sint32_type v s h e =
      let same : print_signed dec 32 (v % 2 ^ 32) ≡ s = cc (e) in rw (← same) (signed-IsWord 32 _)
  arg_text-IsWord uint32_type v s h e =
      let same : print_unsigned dec (v % 2 ^ 32) ≡ s = cc (e) in rw (← same) (number-IsWord dec _)
  arg_text-IsWord sint64_type v s h e =
      let same : print_signed dec 64 v ≡ s = cc (e) in rw (← same) (signed-IsWord 64 v)
  arg_text-IsWord uint64_type v s h e =
      let same : print_unsigned dec v ≡ s = cc (e) in rw (← same) (number-IsWord dec v)
  arg_text-IsWord ptr_type v s h e =
      let same : (if v == 0 then codes "NULL" else codes "0x" ++ print_unsigned hex v) ≡ s =
        cc (e) in
      rw (← same) (pointer-IsWord v)
  arg_text-IsWord str_type v s h e = cc

sint_told :
    (bits v w : ℕ)
    → v < 2 ^ bits
    → w < 2 ^ bits
    → print_signed dec bits v ≡ print_signed dec bits w
    → v ≡ w
sint_told bits v w hv hw e =
    let same : some v ≡ some w =
      sym (read_signed-print_signed bits v hv)
      ∙ ap (read_signed bits) e
      ∙ read_signed-print_signed bits w hw in
    cc (same)

pointer_told :
    (v w : ℕ)
    → (if v == 0 then codes "NULL" else codes "0x" ++ print_unsigned hex v)
      ≡ (if w == 0 then codes "NULL" else codes "0x" ++ print_unsigned hex w)
    → v ≡ w
pointer_told v w e = elim (Bool-cases (v == 0)) [
  | inl a ↦ elim (Bool-cases (w == 0)) [
    | inl b ↦ ground arith
    | inr b ↦
        let e' : codes "NULL" ≡ codes "0x" ++ print_unsigned hex w = rw (a, b) at e in
        absurd (cc (e'))
  ]
  | inr a ↦ elim (Bool-cases (w == 0)) [
    | inl b ↦
        let e' : codes "0x" ++ print_unsigned hex v ≡ codes "NULL" = rw (a, b) at e in
        absurd (cc (e'))
    | inr b ↦
        let e' : codes "0x" ++ print_unsigned hex v ≡ codes "0x" ++ print_unsigned hex w =
          rw (a, b) at e in
        print_unsigned-injective hex v w (cc (e'))
  ]
]

module _ (m m' : ReadMemory) (k l : ℕ) where
  -- Two registers that are printed by one text, as a type that is no string.
  pub arg_told :
      (ty : ArgType) (v w : ℕ) (s : Bytes)
      → is_string ty ≡ false
      → v < 2 ^ 64
      → w < 2 ^ 64
      → arg_text m k ty v ≡ some s
      → arg_text m' l ty w ≡ some s
      → SameArg m m' k l ty v w
  unfolding arg_text
  arg_told unknown_type v w s h hv hw ev ew =
      let same : codes "[0x" ++ (print_unsigned hex v ++ codes "]")
          ≡ codes "[0x" ++ (print_unsigned hex w ++ codes "]") =
        cc (ev, ew) in
      (number_cut hex v w b']' b']' [] [] (λ d. omega arith) (λ d. omega arith) (cc (same))).0
  arg_told sint32_type v w s h hv hw ev ew =
      sint_told 32 (v % 2 ^ 32) (w % 2 ^ 32) (omega arith) (omega arith) (cc (ev, ew))
  arg_told uint32_type v w s h hv hw ev ew =
      print_unsigned-injective dec (v % 2 ^ 32) (w % 2 ^ 32) (cc (ev, ew))
  arg_told sint64_type v w s h hv hw ev ew = sint_told 64 v w hv hw (cc (ev, ew))
  arg_told uint64_type v w s h hv hw ev ew = print_unsigned-injective dec v w (cc (ev, ew))
  arg_told ptr_type v w s h hv hw ev ew = pointer_told v w (cc (ev, ew))
  arg_told str_type v w s h hv hw ev ew = cc
