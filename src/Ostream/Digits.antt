-- ===== src/Ostream/Digits.antt =====
-- The digits of a number to base ten or sixteen, as `operator<<` of a `std::ostream` prints them.
use gravelbox.Base.{
  ℕ, ◌+◌, ◌-◌, ◌/◌, ◌%◌, ◌<◌, ◌≡◌, dite, dec_lt, lt_wf, Bytes, ◌∷◌, ltb, if◌then◌else◌, arith,
}
use mathlib.Core.WellFounded.{Acc, Acc-prop}

pub data Radix : Type 0 where
  dec hex : Radix

unfoldable pub radix : Radix → ℕ
radix dec = 10
radix hex = 16

-- '0' to '9', 'a' to 'f'.
unfoldable pub digit_char : ℕ → ℕ
digit_char d = if ltb d 10 then b'0' + d else b'a' + (d - 10)

pub quotient_lt : (b : Radix) {n : ℕ} → 0 < n → n / radix b < n
unfolding radix
quotient_lt dec h = omega arith
quotient_lt hex h = omega arith

emit : (b : Radix) (n : ℕ) → Acc ◌<◌ n → Bytes → Bytes
emit b n (Acc.intro _ below) out =
    dite (dec_lt 0 n)
      (λ h.
        emit b (n / radix b) (below (n / radix b) (quotient_lt b h))
          (digit_char (n % radix b) ∷ out))
      (λ _. out)

-- The digits of `n`, in front of `out`; none for 0.
unfoldable pub digits : Radix → ℕ → Bytes → Bytes
unfolding emit lt_wf dec_lt radix digit_char
digits b n = emit b n (lt_wf.apply n)

emit_step :
    (b : Radix) (n : ℕ) (w : Acc ◌<◌ n) (w' : Acc ◌<◌ (n / radix b)) (out : Bytes)
    → emit b n w out
      ≡ dite (dec_lt 0 n) (λ _. emit b (n / radix b) w' (digit_char (n % radix b) ∷ out)) (λ _. out)
unfolding emit
emit_step b n (Acc.intro _ below) w' out = λ i.
    dite (dec_lt 0 n)
      (λ h.
        emit b (n / radix b) (Acc-prop (below (n / radix b) (quotient_lt b h)) w' i)
          (digit_char (n % radix b) ∷ out))
      (λ _. out)

pub digits_step :
    (b : Radix) (n : ℕ) (out : Bytes)
    → digits b n out
      ≡ dite (dec_lt 0 n) (λ _. digits b (n / radix b) (digit_char (n % radix b) ∷ out)) (λ _. out)
unfolding digits
digits_step b n out = emit_step b n (lt_wf.apply n) (lt_wf.apply (n / radix b)) out

pub digits-zero : (b : Radix) (out : Bytes) → digits b 0 out ≡ out
unfolding dec_lt
digits-zero b out = digits_step b 0 out

pub digits_pos :
    (b : Radix) (n : ℕ) (out : Bytes)
    → 0 < n
    → digits b n out ≡ digits b (n / radix b) (digit_char (n % radix b) ∷ out)
digits_pos b n out h = ground (arith, digits_step b n out)
