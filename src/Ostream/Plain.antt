-- ===== src/Ostream/Plain.antt =====
-- What an insertion into a stream with no width set appends, and what it leaves as it was.
use gravelbox.Base.{ℕ, ◌-◌, ◌≡◌, refl, Bytes, ◌++◌, append_assoc, length, arith}
use gravelbox.Ostream.Defs.{Stream, padding, put, put_unsigned, set_base}
use gravelbox.Ostream.Digits.{Radix, hex}
use gravelbox.Ostream.Number.{print_unsigned}

-- A stream that no width was set for.
abbrev pub IsPlain : Stream → Type 0
IsPlain os = os.width ≡ 0

pub put-text : (t : Bytes) (os : Stream) → IsPlain os → (put t os).text ≡ os.text ++ t
unfolding put padding
put-text t os h = rw h (let e : 0 - length t ≡ 0 = omega arith in rw e)

pub put-IsPlain : (t : Bytes) (os : Stream) → IsPlain (put t os)
unfolding put
put-IsPlain t os = refl

pub put-base : (t : Bytes) (os : Stream) → (put t os).base ≡ os.base
unfolding put
put-base t os = refl

pub put_unsigned-text :
    (v : ℕ) (os : Stream) {b : Radix}
    → IsPlain os
    → os.base ≡ b
    → (put_unsigned v os).text ≡ os.text ++ print_unsigned b v
unfolding put_unsigned
put_unsigned-text v os w e = rw (← e) (put-text (print_unsigned os.base v) os w)

pub put_unsigned-IsPlain : (v : ℕ) (os : Stream) → IsPlain (put_unsigned v os)
unfolding put_unsigned put
put_unsigned-IsPlain v os = refl

pub put_unsigned-base : (v : ℕ) (os : Stream) → (put_unsigned v os).base ≡ os.base
unfolding put_unsigned put
put_unsigned-base v os = refl

-- A number behind a prefix, in hexadecimal.
pub put_hex-text :
    (before : Bytes) (v : ℕ) (os : Stream)
    → IsPlain os
    → (put_unsigned v (set_base hex (put before os))).text
      ≡ os.text ++ (before ++ print_unsigned hex v)
unfolding put_unsigned set_base
put_hex-text before v os w =
    rw
      (
        put-text (print_unsigned hex v) (set_base hex (put before os)) (put-IsPlain before os),
        put-text before os w,
      )
      (append_assoc os.text before (print_unsigned hex v))
