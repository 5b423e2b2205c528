-- ===== src/Parser/Shown.antt =====
-- What the text of a list of arguments says of them, for `SyscallDef::write` of
-- src/parser/syscalldef.h.
use gravelbox.Base.{
  ℕ, ◌+◌, ◌^◌, ◌<◌, ◌≡◌, refl, sym, ◌∙◌, Bytes, List, [], ◌∷◌, ◌++◌, append_assoc,
  append_cancel_left, codes, Bool, true, false, not, ◌&&◌, Bool-cases, ltb, if◌then◌else◌, All,
  All-append, All-weaken, Option-cases, some, ◌⊎◌, inl, inr, arith,
}
use gravelbox.Utils.{ArgArray, arg_at}
use gravelbox.Parser.StrType.{ReadMemory, remote_iovecs}
use gravelbox.Parser.Escape.{NotQuote}
use gravelbox.Parser.ArgType.{
  ArgType, unknown_type, sint32_type, uint32_type, sint64_type, uint64_type, ptr_type, str_type,
}
use gravelbox.Parser.ArgText.{HoldsBytes, arg_text}
use gravelbox.Parser.CallText.{args_text}
use gravelbox.Parser.Cut.{cut}
use gravelbox.Parser.Told.{SameArg, is_string, IsWord, arg_text-IsWord, arg_told}
use gravelbox.Parser.StringTold.{string_told}

abbrev no_string : List ArgType → Bool
no_string [] = true
no_string (ty ∷ tys) = if is_string ty then false else no_string tys

-- A string, with another one behind it.
abbrev pub is_followed : ArgType → List ArgType → Bool
is_followed ty tys = is_string ty && not (no_string tys)

-- The argument at `i` and those behind it, shown with the types of the list, up to a string with another
-- one behind it.
abbrev pub SameArgs :
    ReadMemory → ReadMemory → ℕ → ℕ → ArgArray → ArgArray → List ArgType → ℕ → Type 0
SameArgs m m' k l a b [] i = Unit
SameArgs m m' k l a b (ty ∷ tys) i = elim (is_followed ty tys) [
  | true ↦ Unit
  | false ↦ SameArg m m' k l ty (arg_at a i) (arg_at b i) × SameArgs m m' k l a b tys (i + 1)
]

abbrev separator : ℕ → Bytes
separator i = if ltb 0 i then codes ", " else []

separator-NotQuote : (i : ℕ) → All NotQuote (separator i)
separator-NotQuote i = ground arith

module _ (m : ReadMemory) (k : ℕ) (a : ArgArray) where
  args_text-cons :
      (ty : ArgType) (tys : List ArgType) (i : ℕ) (r : Bytes)
      → args_text m k a (ty ∷ tys) i ≡ some r
      → (t : Bytes) × (q : Bytes) × (arg_text m k ty (arg_at a i) ≡ some t)
        × (args_text m k a tys (i + 1) ≡ some q)
        × (r ≡ separator i ++ (t ++ q))
  unfolding args_text
  args_text-cons ty tys i r e = elim (Option-cases (arg_text m k ty (arg_at a i))) [
    | inl n ↦ absurd (cc (rw n at e))
    | inr (t, h) ↦ elim (Option-cases (args_text m k a tys (i + 1))) [
      | inl n ↦ absurd (cc (rw (h, n) at e))
      | inr (q, h') ↦ (t, q, h, h', cc (rw (h, h') at e))
    ]
  ]

  -- Behind an argument comes a comma or the closing parenthesis.
  args_text-head :
      (tys : List ArgType) (i : ℕ) (r : Bytes)
      → args_text m k a tys (i + 1) ≡ some r
      → (x : ℕ) × (u : Bytes) × (r ++ codes ")" ≡ x ∷ u) × ((x ≡ b',') ⊎ (x ≡ b')'))
  unfolding args_text
  args_text-head [] i r e = let same : [] ≡ r = cc (e) in (b')', [], rw (← same) refl, inr refl)
  args_text-head (ty ∷ tys) i r e =
      let (t, q, h, h', s) = args_text-cons ty tys (i + 1) r e in
      let y : ltb 0 (i + 1) ≡ true = ground arith in
      (b',', 32 ∷ (t ++ q) ++ codes ")", rw (s, y) refl, inl refl)

  args_text-NotQuote :
      (tys : List ArgType) (i : ℕ) (r : Bytes)
      → no_string tys ≡ true
      → args_text m k a tys i ≡ some r
      → All NotQuote r
  unfolding args_text
  args_text-NotQuote [] i r n e = let same : [] ≡ r = cc (e) in rw (← same) tt
  args_text-NotQuote (ty ∷ tys) i r n e = elim (Bool-cases (is_string ty)) [
    | inl y ↦ absurd (cc (n, y))
    | inr w ↦
        let (t, q, h, h', s) = args_text-cons ty tys i r e in
        let word : All NotQuote t =
          All-weaken (λ c h. h.2) t (arg_text-IsWord m k ty (arg_at a i) t w h) in
        let behind : All NotQuote q = args_text-NotQuote tys (i + 1) q (rw w at n) h' in
        rw s (
          All-append NotQuote (separator i) (t ++ q) (separator-NotQuote i)
            (All-append NotQuote t q word behind))
  ]

no_word : (x : ℕ) → (x ≡ b',') ⊎ (x ≡ b')') → IsWord x → ⊥
no_word x (inl e) h = h.0 e
no_word x (inr e) h = h.1 e

is_string-str_type : (ty : ArgType) → is_string ty ≡ true → ty ≡ str_type
is_string-str_type unknown_type h = cc
is_string-str_type sint32_type h = cc
is_string-str_type uint32_type h = cc
is_string-str_type sint64_type h = cc
is_string-str_type uint64_type h = cc
is_string-str_type ptr_type h = cc
is_string-str_type str_type h = refl

grouped : (p t u w : Bytes) → (p ++ (t ++ u)) ++ w ≡ p ++ (t ++ (u ++ w))
grouped p t u w = simp append_assoc

-- The registers of a call are 64 bits wide.
abbrev pub IsRegisters : ArgArray → Type 0
IsRegisters a = (j : ℕ) → arg_at a j < 2 ^ 64

module _ (m m' : ReadMemory) (bytes : HoldsBytes m) (bytes' : HoldsBytes m') (k l : ℕ)
    (a b : ArgArray) (ra : IsRegisters a) (rb : IsRegisters b) where
  string_first :
      (tys : List ArgType) (i : ℕ) (t u t' u' : Bytes)
      → no_string tys ≡ true
      → arg_text m k str_type (arg_at a i) ≡ some t
      → args_text m k a tys (i + 1) ≡ some u
      → arg_text m' l str_type (arg_at b i) ≡ some t'
      → args_text m' l b tys (i + 1) ≡ some u'
      → t ++ (u ++ codes ")") ≡ t' ++ (u' ++ codes ")")
      → SameArg m m' k l str_type (arg_at a i) (arg_at b i) × (u ++ codes ")" ≡ u' ++ codes ")")
  unfolding arg_text
  string_first tys i t u t' u' h ht hu ht' hu' e =
      let plain = args_text-NotQuote m k a tys (i + 1) u h hu in
      let plain' = args_text-NotQuote m' l b tys (i + 1) u' h hu' in
      let (same, rest) =
        string_told (m k (remote_iovecs (arg_at a i))) (m' l (remote_iovecs (arg_at b i))) t t'
          (u ++ codes ")") (u' ++ codes ")") (bytes k (remote_iovecs (arg_at a i)))
          (bytes' l (remote_iovecs (arg_at b i))) ht ht'
          (All-append NotQuote u (codes ")") plain (ground arith))
          (All-append NotQuote u' (codes ")") plain' (ground arith)) e in
      (same, rest)

  -- The first argument and what is behind it.
  first_told :
      (ty : ArgType) (tys : List ArgType) (i : ℕ) (t u t' u' : Bytes)
      → is_followed ty tys ≡ false
      → arg_text m k ty (arg_at a i) ≡ some t
      → args_text m k a tys (i + 1) ≡ some u
      → arg_text m' l ty (arg_at b i) ≡ some t'
      → args_text m' l b tys (i + 1) ≡ some u'
      → t ++ (u ++ codes ")") ≡ t' ++ (u' ++ codes ")")
      → SameArg m m' k l ty (arg_at a i) (arg_at b i) × (u ++ codes ")" ≡ u' ++ codes ")")
  first_told ty tys i t u t' u' h ht hu ht' hu' e = elim (Bool-cases (is_string ty)) [
    | inl y ↦
        let q = is_string-str_type ty y in
        rw q (string_first tys i t u t' u' (ground arith) (rw q at ht) hu (rw q at ht') hu' e)
    | inr n ↦
        let (x, v, hx, kx) = args_text-head m k a tys i u hu in
        let (z, w, hz, kz) = args_text-head m' l b tys i u' hu' in
        let word = arg_text-IsWord m k ty (arg_at a i) t n ht in
        let word' = arg_text-IsWord m' l ty (arg_at b i) t' n ht' in
        let (same, rest) =
          cut IsWord t t' x z v w word word' (no_word x kx) (no_word z kz) (rw (hx, hz) at e) in
        (
          arg_told m m' k l ty (arg_at a i) (arg_at b i) t n (ra i) (rb i) ht (rw same ht'),
          rw (hx, hz) rest,
        )
  ]

  -- Behind the same separator, texts that agree up to the closing parenthesis.
  pub args_told :
      (tys : List ArgType) (i : ℕ) (r q : Bytes)
      → args_text m k a tys i ≡ some r
      → args_text m' l b tys i ≡ some q
      → r ++ codes ")" ≡ q ++ codes ")"
      → SameArgs m m' k l a b tys i
  args_told [] i r q er eq e = tt
  args_told (ty ∷ tys) i r q er eq e = elim (Bool-cases (is_followed ty tys)) [
    | inl y ↦ rw (SameArgs, y) tt
    | inr n ↦
        let (t, u, ht, hu, sr) = args_text-cons m k a ty tys i r er in
        let (t', u', ht', hu', sq) = args_text-cons m' l b ty tys i q eq in
        let (here, rest) = first_told ty tys i t u t' u' n ht hu ht' hu' (
          append_cancel_left (separator i) (t ++ (u ++ codes ")")) (t' ++ (u' ++ codes ")")) (
            sym (grouped (separator i) t u (codes ")"))
            ∙ rw (sr, sq) at e
            ∙ grouped (separator i) t' u' (codes ")"))) in
        rw (SameArgs, n) (here, args_told tys (i + 1) u u' hu hu' rest)
  ]
