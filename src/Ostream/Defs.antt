-- ===== src/Ostream/Defs.antt =====
-- `std::ostringstream` as src/parser uses it: the text so far, and the formatting state that the
-- manipulators leave behind (`std::dec`, `std::hex`, `std::setfill`, `std::setw`).
use gravelbox.Base.{ℕ, zero, suc, ◌-◌, Bytes, [], ◌∷◌, ◌++◌, length}
use gravelbox.Ostream.Digits.{Radix, dec}
use gravelbox.Ostream.Number.{print_unsigned, print_signed}

pub record Stream : Type 0 where
  pub text : Bytes
  pub base : Radix
  pub fill : ℕ
  pub width : ℕ

abbrev pub empty : Stream
empty = record { text = []; base = dec; fill = b' '; width = 0 }

unfoldable pub padding : ℕ → ℕ → Bytes
padding zero c = []
padding (suc n) c = c ∷ padding n c

-- One formatted insertion: the text is padded on the left to the width, which is then 0 again.
unfoldable pub put : Bytes → Stream → Stream
unfolding padding
put t os = record os { text = os.text ++ (padding (os.width - length t) os.fill ++ t); width = 0 }

unfoldable pub set_base : Radix → Stream → Stream
set_base b os = record os { base = b }

unfoldable pub set_fill : ℕ → Stream → Stream
set_fill c os = record os { fill = c }

unfoldable pub set_width : ℕ → Stream → Stream
set_width n os = record os { width = n }

-- os << value, for an unsigned integer.
unfoldable pub put_unsigned : ℕ → Stream → Stream
put_unsigned n os = put (print_unsigned os.base n) os

-- os << value, for a signed integer of `bits` bits, given as its bit pattern.
unfoldable pub put_signed : ℕ → ℕ → Stream → Stream
put_signed bits n os = put (print_signed os.base bits n) os
