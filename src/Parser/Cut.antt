-- ===== src/Parser/Cut.antt =====
-- Where one printed piece ends and the next begins, in the text that src/parser makes of a call.
use gravelbox.Base.{ℕ, ◌≡◌, refl, sym, ap, ◌∙◌, Bytes, [], ◌∷◌, ◌++◌, All, some}
use gravelbox.Ostream.Digits.{Radix}
use gravelbox.Ostream.Number.{print_unsigned, IsDigit, read_unsigned, read_unsigned-print_unsigned}
use gravelbox.Ostream.Signed.{print_unsigned-IsDigit}

module _ (P : ℕ → Type 0) where
  -- Characters of one kind up to one of another kind are cut off in one way.
  pub cut :
      (s t : Bytes) (x y : ℕ) (u v : Bytes)
      → All P s
      → All P t
      → (P x → ⊥)
      → (P y → ⊥)
      → s ++ x ∷ u ≡ t ++ y ∷ v
      → (s ≡ t) × (x ∷ u ≡ y ∷ v)
  cut [] [] x y u v hs ht nx ny e = (refl, e)
  cut [] (d ∷ t) x y u v hs (hd, ht) nx ny e = absurd (nx (let same : x ≡ d = cc (e) in rw same hd))
  cut (d ∷ s) [] x y u v (hd, hs) ht nx ny e =
      absurd (ny (let same : d ≡ y = cc (e) in rw (← same) hd))
  cut (d ∷ s) (c ∷ t) x y u v (hd, hs) (hc, ht) nx ny e =
      let (same, behind) = cut s t x y u v hs ht nx ny (cc (e)) in (cc (e, same), behind)

pub print_unsigned-injective :
    (b : Radix) (m n : ℕ) → print_unsigned b m ≡ print_unsigned b n → m ≡ n
print_unsigned-injective b m n e =
    let same : some m ≡ some n =
      sym (read_unsigned-print_unsigned b m)
      ∙ ap (read_unsigned b) e
      ∙ read_unsigned-print_unsigned b n in
    cc (same)

-- A number in front of a character that is no digit.
pub number_cut :
    (b : Radix) (m n x y : ℕ) (u v : Bytes)
    → (IsDigit x → ⊥)
    → (IsDigit y → ⊥)
    → print_unsigned b m ++ x ∷ u ≡ print_unsigned b n ++ y ∷ v
    → (m ≡ n) × (u ≡ v)
number_cut b m n x y u v nx ny e =
    let (same, behind) =
      cut IsDigit (print_unsigned b m) (print_unsigned b n) x y u v (print_unsigned-IsDigit b m)
        (print_unsigned-IsDigit b n) nx ny e in
    (print_unsigned-injective b m n same, cc (behind))
