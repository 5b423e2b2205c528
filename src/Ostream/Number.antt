-- ===== src/Ostream/Number.antt =====
-- Integers as `operator<<` of a `std::ostream` prints them, and a reader that takes them back.
use gravelbox.Base.{
  ℕ, ◌+◌, ◌-◌, ◌*◌, ◌/◌, ◌%◌, ◌^◌, ◌≤◌, ◌<◌, ◌≡◌, lt_wf, Bytes, [], ◌∷◌, ◌⊎◌, inl, inr, ap, ◌∙◌,
  ◌==◌, ltb, leb, ◌&&◌, if◌then◌else◌, Option, none, some, arith, Bool-cases,
}
use mathlib.Core.WellFounded
use gravelbox.Ostream.Digits.{
  Radix, dec, hex, radix, quotient_lt, digit_char, digits, digits-zero, digits_pos,
}

unfoldable pub print_unsigned : Radix → ℕ → Bytes
unfolding digits
print_unsigned b n = if n == 0 then b'0' ∷ [] else digits b n []

-- A signed integer of `bits` bits, from its bit pattern; std::hex shows the pattern.
unfoldable pub print_signed : Radix → ℕ → ℕ → Bytes
unfolding print_unsigned
print_signed hex bits n = print_unsigned hex n
print_signed dec bits n =
    if ltb n (2 ^ (bits - 1))
    then print_unsigned dec n
    else b'-' ∷ print_unsigned dec (2 ^ bits - n)

-- The value of a digit, if `c` is one.
unfoldable pub digit_of : Radix → ℕ → Option ℕ
digit_of b c =
    if leb b'0' c && leb c b'9'
    then some (c - b'0')
    else if leb b'a' c && ltb c (b'a' + (radix b - 10))
    then some (c - b'a' + 10)
    else none

abbrev pub IsDigit : ℕ → Type 0
IsDigit c = ((b'0' ≤ c) × (c ≤ b'9')) ⊎ ((b'a' ≤ c) × (c ≤ b'f'))

-- The number that a text of digits spells behind the digits of `n`.
unfoldable pub read_from : Radix → ℕ → Bytes → Option ℕ
read_from b n [] = some n
read_from b n (c ∷ s) = elim (digit_of b c) [
  | none ↦ none
  | some d ↦ read_from b (n * radix b + d) s
]

unfoldable pub read_unsigned : Radix → Bytes → Option ℕ
unfolding read_from digit_of radix
read_unsigned b [] = none
read_unsigned b (c ∷ s) = read_from b 0 (c ∷ s)

digit_of-digit_char : (b : Radix) (d : ℕ) → d < radix b → digit_of b (digit_char d) ≡ some d
unfolding digit_of digit_char radix
digit_of-digit_char dec d h = ground arith
digit_of-digit_char hex d h = ground arith

div-mod-radix : (b : Radix) (n : ℕ) → n / radix b * radix b + n % radix b ≡ n
unfolding radix
div-mod-radix dec n = omega arith
div-mod-radix hex n = omega arith

pub mod-radix : (b : Radix) (n : ℕ) → n % radix b < radix b
unfolding radix
mod-radix dec n = omega arith
mod-radix hex n = omega arith

read_last :
    (b : Radix) (n : ℕ) (out : Bytes)
    → read_from b (n / radix b) (digit_char (n % radix b) ∷ out) ≡ read_from b n out
unfolding read_from
read_last b n out =
    rw (digit_of-digit_char b (n % radix b) (mod-radix b n), read_from)
      (ap (λ m. read_from b m out) (div-mod-radix b n))

read_from-digits :
    (b : Radix) (n : ℕ) (out : Bytes) → read_from b 0 (digits b n out) ≡ read_from b n out
read_from-digits b n =
    WellFounded.induction lt_wf
      {C = λ m. (out : Bytes) → read_from b 0 (digits b m out) ≡ read_from b m out} n
      λ m ih out. elim (Bool-cases (m == 0)) [
        | inl z ↦ let e : m ≡ 0 = ground arith in rw e (rw digits-zero)
        | inr p ↦
            let pos : 0 < m = ground arith in
            rw (digits_pos b m out pos) (
              ih (m / radix b) (quotient_lt b pos) (digit_char (m % radix b) ∷ out)
              ∙ read_last b m out)
      ]

-- What `digits` writes is not empty unless there is nothing to write.
digits-cons :
    (b : Radix) (n c : ℕ) (out : Bytes) → (d : ℕ) × (s : Bytes) × (digits b n (c ∷ out) ≡ d ∷ s)
digits-cons b n =
    WellFounded.induction lt_wf
      {C = λ m. (c : ℕ) (out : Bytes) → (d : ℕ) × (s : Bytes) × (digits b m (c ∷ out) ≡ d ∷ s)} n
      λ m ih c out. elim (Bool-cases (m == 0)) [
        | inl z ↦ let e : m ≡ 0 = ground arith in (c, out, rw e (digits-zero b (c ∷ out)))
        | inr p ↦
            let pos : 0 < m = ground arith in
            rw (digits_pos b m (c ∷ out) pos)
              (ih (m / radix b) (quotient_lt b pos) (digit_char (m % radix b)) (c ∷ out))
      ]

print_unsigned-cons : (b : Radix) (n : ℕ) → (d : ℕ) × (s : Bytes) × (print_unsigned b n ≡ d ∷ s)
unfolding print_unsigned
print_unsigned-cons b n = elim (Bool-cases (n == 0)) [
  | inl z ↦ (b'0', [], rw z)
  | inr p ↦ rw p (
      let pos : 0 < n = ground arith in
      rw (digits_pos b n [] pos) (digits-cons b (n / radix b) _ []))
]

read_unsigned-cons :
    (b : Radix) (s : Bytes) (c : ℕ) (r : Bytes) → s ≡ c ∷ r → read_unsigned b s ≡ read_from b 0 s
unfolding read_unsigned
read_unsigned-cons b s c r e = rw e

-- Every number is read back from its print.
pub read_unsigned-print_unsigned :
    (b : Radix) (n : ℕ) → read_unsigned b (print_unsigned b n) ≡ some n
unfolding read_from
read_unsigned-print_unsigned b n =
    let (d, s, e) = print_unsigned-cons b n in
    rw (read_unsigned-cons b _ d s e) (elim (Bool-cases (n == 0)) [
      | inl z ↦
          let e : n ≡ 0 = ground arith in
          rw e (unfold print_unsigned read_from digit_of in ap some (omega arith))
      | inr p ↦ unfold print_unsigned in rw p (read_from-digits b n [])
    ])
