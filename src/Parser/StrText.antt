-- ===== src/Parser/StrText.antt =====
-- The text of a string argument, as a function of the bytes read: what the loop of
-- `StrType::write` in src/parser/argtypes.cpp amounts to.
use gravelbox.Base.{
  ℕ, zero, suc, ◌+◌, ◌-◌, ◌/◌, ◌%◌, ◌<◌, ◌≡◌, inl, inr, refl, sym, Bytes, [], ◌∷◌, ◌++◌,
  append_assoc, append-nil, codes, Bool, true, false, ◌&&◌, ◌==◌, ltb, leb, if◌then◌else◌, str_eq,
  str_eq_iff, length, All, Bool-cases, arith,
}
use gravelbox.Ostream.Defs.{Stream, put, padding}
use gravelbox.Ostream.Plain.{IsPlain, put-text, put-IsPlain}
use gravelbox.Ostream.Digits.{hex, digit_char}
use gravelbox.Ostream.Number.{print_unsigned}
use gravelbox.Parser.StrType.{max_str_len, widen, put_hex, put_char, put_chars, put_quoted}

-- The bytes in front of the first NUL.
abbrev pub c_string : Bytes → Bytes
c_string [] = []
c_string (c ∷ buf) = elim (c == 0) [ true ↦ [] | false ↦ c ∷ c_string buf ]

-- Two hexadecimal digits, with `ff` in front of those of a byte from 128 on.
unfoldable pub hex_byte : ℕ → Bytes
unfolding digit_char
hex_byte c =
    let low = digit_char (c / 16) ∷ digit_char (c % 16) ∷ [] in
    if ltb c 128 then low else b'f' ∷ b'f' ∷ low

unfoldable pub escape_char : ℕ → Bytes
escape_char c =
    if c == b'\\'
    then b'\\' ∷ b'\\' ∷ []
    else if c == b'\n'
    then b'\\' ∷ b'n' ∷ []
    else if c == b'\t'
    then b'\\' ∷ b't' ∷ []
    else if leb 0x20 c && leb c 0x7e
    then c ∷ []
    else b'\\' ∷ b'x' ∷ hex_byte c

abbrev pub escape : Bytes → Bytes
escape [] = []
escape (c ∷ s) = escape_char c ++ escape s

-- What is printed for the bytes of the buffer.
abbrev pub quoted : Bytes → Bytes
quoted buf =
    let s = c_string buf in
    b'"' ∷ (escape s ++ (b'"' ∷ (if length s == max_str_len then codes "..." else [])))

all_below : ℕ → (ℕ → Bool) → Bool
all_below zero p = true
all_below (suc n) p = p n && all_below n p

all_below-lt : (n : ℕ) (p : ℕ → Bool) (x : ℕ) → all_below n p ≡ true → x < n → p x ≡ true
unfolding all_below
all_below-lt zero p x h lt = absurd (omega arith)
all_below-lt (suc n) p x h lt = ground (arith, all_below-lt n p x)

padded : ℕ → Bytes
padded c = padding (2 - length (print_unsigned hex (widen c))) b'0' ++ print_unsigned hex (widen c)

padded_table : all_below 256 (λ c. str_eq (padded c) (hex_byte c)) ≡ true
unfolding all_below padded padding print_unsigned widen hex_byte str_eq
padded_table = refl

padded-hex_byte : (c : ℕ) → c < 256 → padded c ≡ hex_byte c
padded-hex_byte c h = (str_eq_iff (padded c) (hex_byte c)).0 (all_below-lt 256 _ c padded_table h)

abbrev pub IsByte : ℕ → Type 0
IsByte c = c < 256

put_hex-text :
    (c : ℕ) (os : Stream)
    → c < 256
    → IsPlain os
    → (put_hex c os).text ≡ os.text ++ (b'\\' ∷ b'x' ∷ hex_byte c)
unfolding put_hex padded
put_hex-text c os h w =
    rw (w, ← padded-hex_byte c h) (append_assoc os.text (codes "\\x") (padded c))

put_hex-IsPlain : (c : ℕ) (os : Stream) → IsPlain (put_hex c os)
unfolding put_hex
put_hex-IsPlain c os = refl

put_char-text :
    (c : ℕ) (os : Stream)
    → c < 256
    → IsPlain os
    → ((put_char c os).text ≡ os.text ++ escape_char c) × IsPlain (put_char c os)
unfolding put_char escape_char
put_char-text c os h w = ground (
  arith,
  put-text (codes "\\\\") os w,
  put-text (codes "\\n") os w,
  put-text (codes "\\t") os w,
  put-text (c ∷ []) os w,
  put_hex-text c os h w,
  put-IsPlain (codes "\\\\") os,
  put-IsPlain (codes "\\n") os,
  put-IsPlain (codes "\\t") os,
  put-IsPlain (c ∷ []) os,
  put_hex-IsPlain c os,
)

-- The loop appends the escaped C string, and counts its bytes.
put_chars-text :
    (buf : Bytes) (i : ℕ) (os : Stream)
    → All IsByte buf
    → IsPlain os
    → ((put_chars buf i os).0.text ≡ os.text ++ escape (c_string buf))
      × IsPlain (put_chars buf i os).0
      × ((put_chars buf i os).1 ≡ i + length (c_string buf))
unfolding put_chars
put_chars-text [] i os b w = (sym (append-nil os.text), w, omega arith)
put_chars-text (c ∷ buf) i os (h, b) w =
    let now = put_char-text c os h w in
    ground (
      arith,
      put_chars-text buf (i + 1) (put_char c os) b now.1,
      now,
      append_assoc os.text (escape_char c) (escape (c_string buf)),
      append-nil os.text,
    )

-- On a stream that no width was set for, whatever its base and fill are, the bytes of the buffer are
-- printed as `quoted` says, and no width is left behind.
pub put_quoted-quoted :
    (buf : Bytes) (os : Stream)
    → All IsByte buf
    → IsPlain os
    → ((put_quoted buf os).text ≡ os.text ++ quoted buf) × IsPlain (put_quoted buf os)
unfolding put_quoted
put_quoted-quoted buf os b w =
    let opened = put (codes "\"") os in
    let inside = put_chars-text buf 0 opened b (put-IsPlain (codes "\"") os) in
    let os' = (put_chars buf 0 opened).0 in
    let closed = put (codes "\"") os' in
    let counted : (put_chars buf 0 opened).1 ≡ length (c_string buf) = omega (arith, inside.2) in
    let closed-text : closed.text ≡ os.text ++ (b'"' ∷ (escape (c_string buf) ++ (b'"' ∷ []))) =
      rw (put-text (codes "\"") os' inside.1, inside.0, put-text (codes "\"") os w)
        (simp append_assoc) in
    rw counted (elim (Bool-cases (length (c_string buf) == max_str_len)) [
      | inl full ↦ rw (full) (
        rw (put-text (codes "...") closed (put-IsPlain (codes "\"") os'), closed-text)
            (simp append_assoc),
        put-IsPlain (codes "...") closed,
      )
      | inr short ↦ rw short (closed-text, put-IsPlain (codes "\"") os')
    ])
