-- ===== src/Parser/Escape.antt =====
-- What a printed string says of its bytes, for `StrType::write` of src/parser/argtypes.cpp.
use gravelbox.Base.{
  ℕ, ◌+◌, ◌-◌, ◌*◌, ◌≤◌, ◌<◌, ◌≡◌, ◌≢◌, refl, sym, ap, ◌∙◌, Bytes, [], ◌∷◌, ◌++◌, append_assoc,
  append_cancel_left, codes, Bool, true, false, ◌&&◌, ◌==◌, leb, if◌then◌else◌, length, All,
  All-append, Option, none, some, arith,
}
use gravelbox.Ostream.Digits.{digit_char}
use gravelbox.Parser.StrType.{max_str_len}
use gravelbox.Parser.StrText.{c_string, hex_byte, escape_char, escape, quoted, IsByte}

-- A decoder for the escapes: the first byte of an escaped text, and the text behind it.
nibble : ℕ → ℕ
nibble c = if leb c b'9' then c - b'0' else c - b'a' + 10

two_digits : Bytes → Option (ℕ × Bytes)
two_digits (h ∷ l ∷ r) = some (nibble h * 16 + nibble l, r)
two_digits _ = none

hex_digits : Bytes → Option (ℕ × Bytes)
hex_digits (h ∷ l ∷ r) =
    if h == b'f' && l == b'f' then two_digits r else some (nibble h * 16 + nibble l, r)
hex_digits _ = none

behind_backslash : Bytes → Option (ℕ × Bytes)
unfolding hex_digits
behind_backslash [] = none
behind_backslash (c ∷ r) =
    if c == b'\\'
    then some (b'\\', r)
    else if c == b'n'
    then some (b'\n', r)
    else if c == b't'
    then some (b'\t', r)
    else hex_digits r

decode_char : Bytes → Option (ℕ × Bytes)
decode_char [] = none
decode_char (c ∷ r) = if c == b'\\' then behind_backslash r else some (c, r)

nibble-digit_char : (d : ℕ) → d < 16 → nibble (digit_char d) ≡ d
unfolding nibble digit_char
nibble-digit_char d h = ground arith

hex_digits-hex_byte : (c : ℕ) (r : Bytes) → c < 256 → hex_digits (hex_byte c ++ r) ≡ some (c, r)
unfolding hex_digits two_digits hex_byte nibble digit_char
hex_digits-hex_byte c r h = ground arith

decode_char-escape_char :
    (c : ℕ) (r : Bytes) → c < 256 → decode_char (escape_char c ++ r) ≡ some (c, r)
unfolding decode_char behind_backslash escape_char
decode_char-escape_char c r h = ground (arith, hex_digits-hex_byte c r h)

escape-ne-nil : (c : ℕ) (s : Bytes) → c < 256 → escape (c ∷ s) ≢ []
unfolding decode_char
escape-ne-nil c s h e = cc (decode_char-escape_char c (escape s) h)

-- The dots behind a string that may have been cut off.
abbrev pub dots : Bool → Bytes
dots b = if b then codes "..." else []

abbrev pub NotQuote : ℕ → Type 0
NotQuote c = c ≢ b'"'

dots-NotQuote : (b : Bool) → All NotQuote (dots b)
dots-NotQuote true = ground arith
dots-NotQuote false = tt

no_quote_inside : (x v : Bytes) → All NotQuote (x ++ (b'"' ∷ v)) → ⊥
no_quote_inside [] v (n, h) = n refl
no_quote_inside (c ∷ x) v (n, h) = no_quote_inside x v h

-- A closing quote with what is behind it does not end in another one.
quote_tail : (x u v : Bytes) → All NotQuote u → b'"' ∷ u ≡ x ++ (b'"' ∷ v) → x ≡ []
quote_tail [] u v h e = refl
quote_tail (c ∷ x) u v h e =
    let same : u ≡ x ++ (b'"' ∷ v) = cc (e) in absurd (no_quote_inside x v (rw same at h))

-- A string ends at the last quote, where none is behind it.
pub escape_quote-injective :
    (s t u v : Bytes)
    → All IsByte s
    → All IsByte t
    → All NotQuote u
    → All NotQuote v
    → escape s ++ (b'"' ∷ u) ≡ escape t ++ (b'"' ∷ v)
    → (s ≡ t) × (u ≡ v)
escape_quote-injective [] [] u v hs ht hu hv e = (refl, cc (e))
escape_quote-injective [] (x ∷ t) u v hs (hx, ht) hu hv e =
    absurd (escape-ne-nil x t hx (quote_tail (escape (x ∷ t)) u v hu e))
escape_quote-injective (c ∷ s) [] u v (hc, hs) ht hu hv e =
    absurd (escape-ne-nil c s hc (quote_tail (escape (c ∷ s)) v u hv (sym e)))
escape_quote-injective (c ∷ s) (x ∷ t) u v (hc, hs) (hx, ht) hu hv e =
    let a = escape s ++ (b'"' ∷ u) in
    let b = escape t ++ (b'"' ∷ v) in
    let e' : escape_char c ++ a ≡ escape_char x ++ b =
      sym (append_assoc (escape_char c) (escape s) _)
      ∙ e
      ∙ append_assoc (escape_char x) (escape t) _ in
    let same : some (c, a) ≡ some (x, b) =
      sym (decode_char-escape_char c a hc) ∙ ap decode_char e' ∙ decode_char-escape_char x b hx in
    let (inside, behind) = escape_quote-injective s t u v hs ht hu hv (cc (same)) in
    (cc (same, inside), behind)

abbrev pub IsPrint : ℕ → Type 0
IsPrint c = (0x20 ≤ c) × (c ≤ 0x7e)

hex_byte-IsPrint : (c : ℕ) → c < 256 → All IsPrint (hex_byte c)
unfolding hex_byte digit_char
hex_byte-IsPrint c h = ground arith

escape_char-IsPrint : (c : ℕ) → c < 256 → All IsPrint (escape_char c)
unfolding escape_char
escape_char-IsPrint c h = ground (arith, hex_byte-IsPrint c h)

escape-IsPrint : (s : Bytes) → All IsByte s → All IsPrint (escape s)
escape-IsPrint [] h = tt
escape-IsPrint (c ∷ s) (hc, hs) =
    All-append IsPrint (escape_char c) (escape s) (escape_char-IsPrint c hc) (escape-IsPrint s hs)

c_string-IsByte : (buf : Bytes) → All IsByte buf → All IsByte (c_string buf)
c_string-IsByte [] h = tt
c_string-IsByte (c ∷ buf) (hc, hb) = ground (arith, c_string-IsByte buf hb)

-- Whatever bytes the target has in the string, only printable ASCII is printed for it: no byte ends a
-- line or is a control character.
pub quoted-IsPrint : (buf : Bytes) → All IsByte buf → All IsPrint (quoted buf)
quoted-IsPrint buf h = (
  (omega arith, omega arith),
  All-append IsPrint (escape (c_string buf)) _
      (escape-IsPrint (c_string buf) (c_string-IsByte buf h))
      ((omega arith, omega arith), ground arith),
)

-- A printed string in front of text without quotes.
pub quoted_cut :
    (a b u v : Bytes)
    → All IsByte a
    → All IsByte b
    → All NotQuote u
    → All NotQuote v
    → quoted a ++ u ≡ quoted b ++ v
    → (c_string a ≡ c_string b) × (u ≡ v)
quoted_cut a b u v ha hb hu hv e =
    let x = c_string a in
    let y = c_string b in
    let p = length x == max_str_len in
    let q = length y == max_str_len in
    let behind : escape x ++ (b'"' ∷ (dots p ++ u)) ≡ escape y ++ (b'"' ∷ (dots q ++ v)) =
      sym (append_assoc (escape x) (b'"' ∷ dots p) u)
      ∙ cc (e)
      ∙ append_assoc (escape y) (b'"' ∷ dots q) v in
    let (inside, rest) =
      escape_quote-injective x y (dots p ++ u) (dots q ++ v) (c_string-IsByte a ha)
        (c_string-IsByte b hb) (All-append NotQuote (dots p) u (dots-NotQuote p) hu)
        (All-append NotQuote (dots q) v (dots-NotQuote q) hv) behind in
    let same : dots p ≡ dots q = ap (λ z. dots (length z == max_str_len)) inside in
    let rest' : dots q ++ u ≡ dots q ++ v = rw same at rest in
    (inside, append_cancel_left (dots q) u v rest')
