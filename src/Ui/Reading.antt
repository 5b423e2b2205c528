-- ===== src/Ui/Reading.antt =====
-- The replies of pinentry as its protocol has them, and that `recv` of src/ui/pinentry_conn.cpp reads
-- them so.
use gravelbox.Base.{
  ℕ, ◌+◌, ◌*◌, ◌-◌, ◌^◌, ◌<◌, ◌≡◌, refl, Bytes, List, [], ◌∷◌, ◌++◌, codes, true, false, ◌==◌, ltb,
  ok, some, Option-cases, inl, inr, arith, str_eq,
}
use gravelbox.Config.Hex.{is_space}
use gravelbox.Ostream.Digits.{dec, radix}
use gravelbox.Ostream.Number.{read_from, read_unsigned, digit_of}
use gravelbox.Ui.Pinentry.{
  Response, recv_lines, error_response, read_code, skip_space, unsigned_code, starts_decimal,
  scan_digits, is_decimal, behind_code,
}

-- From the lines, with the data so far, a response is read, and these lines are left:
-- `OK` or `OK` and a remark ends it with code 0 and the data; `ERR`, the digits of a number of 32 bits
-- and a text end it with the number and the text; a line of data replaces the data; and a line of
-- status is passed over.
pub data Reads : Bytes → List Bytes → Response → List Bytes → Type 0 where
  fine :
      (text : Bytes) (rest : List Bytes)
      → Reads text (codes "OK" ∷ rest) (record { code = 0; text = text }) rest
  fine_with :
      (text remark : Bytes) (rest : List Bytes)
      → Reads text ((codes "OK " ++ remark) ∷ rest) (record { code = 0; text = text }) rest
  failed :
      (text digits about : Bytes) (n : ℕ) (rest : List Bytes)
      → read_unsigned dec digits ≡ some n
      → n < 2 ^ 32
      → Reads text
          ((codes "ERR " ++ (digits ++ b' ' ∷ about)) ∷ rest)
          (record { code = n; text = about })
          rest
  data_line :
      (text d : Bytes) (lines : List Bytes) (r : Response) (rest : List Bytes)
      → Reads d lines r rest
      → Reads text ((codes "D " ++ d) ∷ lines) r rest
  status :
      (text s : Bytes) (lines : List Bytes) (r : Response) (rest : List Bytes)
      → Reads text lines r rest
      → Reads text ((codes "S " ++ s) ∷ lines) r rest

-- A digit that is read is decimal.
digit_of-is_decimal : (c d : ℕ) → digit_of dec c ≡ some d → (is_decimal c ≡ true) × (d ≡ c - b'0')
unfolding digit_of is_decimal radix
digit_of-is_decimal c d h = (ground arith, ground arith)

-- The scan of a number stops behind its digits.
scan_digits-read_from :
    (m n : ℕ) (s about : Bytes)
    → read_from dec m s ≡ some n
    → scan_digits m (s ++ b' ' ∷ about) ≡ (n, b' ' ∷ about)
unfolding scan_digits read_from radix
scan_digits-read_from m n [] about h = ground arith
scan_digits-read_from m n (c ∷ s) about h = elim (Option-cases (digit_of dec c)) [
  | inl not_one ↦ absurd (ground (arith, not_one))
  | inr (d, shown) ↦
      let (decimal, value) = digit_of-is_decimal c d shown in
      let rest : read_from dec (m * 10 + (c - b'0')) s ≡ some n = ground (arith, shown, value) in
      rw (scan_digits, decimal) (scan_digits-read_from (m * 10 + (c - b'0')) n s about rest)
]

-- What begins with a digit has neither white space nor a sign in front.
first_digit :
    (n c : ℕ) (s : Bytes)
    → read_from dec 0 (c ∷ s) ≡ some n
    → (is_decimal c ≡ true) × (is_space c ≡ false) × ((c == b'-') ≡ false) × ((c == b'+') ≡ false)
unfolding read_from is_space is_decimal radix
first_digit n c s h = elim (Option-cases (digit_of dec c)) [
  | inl not_one ↦ absurd (ground (arith, not_one))
  | inr (d, shown) ↦
      let (decimal, _) = digit_of-is_decimal c d shown in
      (decimal, ground arith, ground arith, ground arith)
]

-- A number of 32 bits behind "ERR ".
error_response-digits :
    (unset n : ℕ) (text digits about : Bytes)
    → read_unsigned dec digits ≡ some n
    → n < 2 ^ 32
    → error_response unset text (codes "ERR " ++ (digits ++ b' ' ∷ about))
      ≡ record { code = n; text = about }
unfolding error_response read_unsigned read_code skip_space unsigned_code starts_decimal behind_code
error_response-digits unset n text [] about h small = cc
error_response-digits unset n text (c ∷ s) about h small =
    let (decimal, space, minus, plus) = first_digit n c s h in
    let scanned = scan_digits-read_from 0 n (c ∷ s) about h in
    let fits : ltb n (2 ^ 32) ≡ true = ground arith in
    rw (space, minus, plus, decimal, scanned, fits) refl

pub Reads-recv_lines :
    (unset : ℕ) {text : Bytes} {lines : List Bytes} {r : Response} {rest : List Bytes}
    → Reads text lines r rest
    → recv_lines unset text lines ≡ (ok r, rest)
unfolding recv_lines str_eq
Reads-recv_lines unset (Reads.fine text rest) = refl
Reads-recv_lines unset (Reads.fine_with text remark rest) = refl
Reads-recv_lines unset (Reads.failed text digits about n rest spelled small) =
    rw (error_response-digits unset n text digits about spelled small) refl
Reads-recv_lines unset (Reads.data_line text d lines r rest more) = Reads-recv_lines unset more
Reads-recv_lines unset (Reads.status text s lines r rest more) = Reads-recv_lines unset more
