-- ===== src/Ostream/Signed.antt =====
-- Signed integers as a `std::ostream` prints them, and which characters an integer's print holds.
use gravelbox.Base.{
  ℕ, ◌-◌, ◌/◌, ◌%◌, ◌^◌, ◌<◌, ◌≡◌, lt_wf, Bytes, [], ◌∷◌, inl, inr, ap, ◌==◌, ltb, if◌then◌else◌,
  Option, none, some, All, arith, Bool-cases,
}
use mathlib.Core.WellFounded
use gravelbox.Ostream.Digits.{
  Radix, dec, hex, radix, quotient_lt, digit_char, digits, digits-zero, digits_pos,
}
use gravelbox.Ostream.Number.{
  print_unsigned, print_signed, read_unsigned, read_unsigned-print_unsigned, IsDigit, mod-radix,
}

digit_char-IsDigit : (b : Radix) (d : ℕ) → d < radix b → IsDigit (digit_char d)
unfolding digit_char radix
digit_char-IsDigit dec d h = ground arith
digit_char-IsDigit hex d h = ground arith

digits-IsDigit : (b : Radix) (n : ℕ) (out : Bytes) → All IsDigit out → All IsDigit (digits b n out)
digits-IsDigit b n =
    WellFounded.induction lt_wf
      {C = λ m. (out : Bytes) → All IsDigit out → All IsDigit (digits b m out)} n
      λ m ih out h. elim (Bool-cases (m == 0)) [
        | inl z ↦ let e : m ≡ 0 = ground arith in rw e (rw digits-zero h)
        | inr p ↦
            let pos : 0 < m = ground arith in
            rw (digits_pos b m out pos) (
              ih (m / radix b) (quotient_lt b pos) (digit_char (m % radix b) ∷ out)
                (digit_char-IsDigit b (m % radix b) (mod-radix b m), h))
      ]

-- An unsigned number is printed in digits and nothing else.
pub print_unsigned-IsDigit : (b : Radix) (n : ℕ) → All IsDigit (print_unsigned b n)
unfolding print_unsigned
print_unsigned-IsDigit b n = elim (Bool-cases (n == 0)) [
  | inl z ↦ rw z (inl (omega arith), tt)
  | inr p ↦ rw p (digits-IsDigit b n [] tt)
]

-- The bit pattern that a signed decimal stands for.
unfoldable pub read_signed : ℕ → Bytes → Option ℕ
read_signed bits [] = none
read_signed bits (c ∷ s) =
    if c == b'-'
    then (elim (read_unsigned dec s) [ none ↦ none | some n ↦ some (2 ^ bits - n) ])
    else read_unsigned dec (c ∷ s)

read_signed-plain :
    (bits : ℕ) (s : Bytes) {n : ℕ}
    → All IsDigit s
    → read_unsigned dec s ≡ some n
    → read_signed bits s ≡ some n
unfolding read_signed read_unsigned
read_signed-plain bits [] a h = cc
read_signed-plain bits (c ∷ s) a h = ground arith

-- Every 32-bit or 64-bit pattern is read back from its signed decimal print.
pub read_signed-print_signed :
    (bits n : ℕ) → n < 2 ^ bits → read_signed bits (print_signed dec bits n) ≡ some n
unfolding print_signed
read_signed-print_signed bits n h = elim (Bool-cases (ltb n (2 ^ (bits - 1)))) [
  | inl p ↦
      rw p (
        read_signed-plain bits _ (print_unsigned-IsDigit dec n)
          (read_unsigned-print_unsigned dec n))
  | inr m ↦ rw m (
      unfold read_signed in
      rw (read_unsigned-print_unsigned dec (2 ^ bits - n)) (ap some (omega arith)))
]
