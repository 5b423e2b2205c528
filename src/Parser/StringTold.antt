-- ===== src/Parser/StringTold.antt =====
-- What the print of a string says of the memory, for `StrType::write` of src/parser/argtypes.cpp.
use gravelbox.Base.{
  ℕ, ◌≡◌, refl, sym, ap, Bytes, ◌++◌, append_cancel_left, codes, Bool-cases, ◌==◌, get_or, All,
  some, inl, inr, arith,
}
use gravelbox.Utils.{Reply, done, errno}
use gravelbox.Parser.StrType.{efault}
use gravelbox.Parser.StrText.{IsByte, quoted, c_string}
use gravelbox.Parser.Escape.{NotQuote, quoted_cut}
use gravelbox.Parser.ArgText.{memory_text}
use gravelbox.Parser.Told.{SameString}

fault_shown :
    (n : ℕ) (t : Bytes) → memory_text (errno n) ≡ some t → (n ≡ efault) × (t ≡ codes "<fault>")
unfolding memory_text
fault_shown n t h = elim (Bool-cases (n == efault)) [
  | inl y ↦ (ground arith, cc (rw y at h))
  | inr w ↦ absurd (cc (rw w at h))
]

both_quoted :
    (a b s t u v : Bytes)
    → All IsByte a
    → All IsByte b
    → quoted a ≡ s
    → quoted b ≡ t
    → All NotQuote u
    → All NotQuote v
    → s ++ u ≡ t ++ v
    → (c_string a ≡ c_string b) × (u ≡ v)
both_quoted a b s t u v ha hb hs ht hu hv e = quoted_cut a b u v ha hb hu hv (rw (← hs, ← ht) at e)

quoted-ne-fault : (a s t u v : Bytes) → quoted a ≡ s → t ≡ codes "<fault>" → s ++ u ≡ t ++ v → ⊥
quoted-ne-fault a s t u v hs ht e =
    let e' : quoted a ++ u ≡ codes "<fault>" ++ v = rw (← hs, ht) at e in
    omega (arith, ap (λ (s : Bytes). get_or s 0 0) e')

both_fault : (s t u v : Bytes) → s ≡ codes "<fault>" → t ≡ codes "<fault>" → s ++ u ≡ t ++ v → u ≡ v
both_fault s t u v a b e = append_cancel_left (codes "<fault>") u v (rw (a, b) at e)

-- Two strings that are printed alike in front of text without quotes.
pub string_told :
    (x y : Reply Bytes) (s t u v : Bytes)
    → ((buf : Bytes) → x ≡ done buf → All IsByte buf)
    → ((buf : Bytes) → y ≡ done buf → All IsByte buf)
    → memory_text x ≡ some s
    → memory_text y ≡ some t
    → All NotQuote u
    → All NotQuote v
    → s ++ u ≡ t ++ v
    → SameString x y × (u ≡ v)
unfolding memory_text
string_told (done a) (done b) s t u v ba bb hs ht hu hv e =
    both_quoted a b s t u v (ba a refl) (bb b refl) (cc (hs)) (cc (ht)) hu hv e
string_told (done a) (errno n) s t u v ba bb hs ht hu hv e =
    absurd (quoted-ne-fault a s t u v (cc (hs)) (fault_shown n t ht).1 e)
string_told (errno n) (done b) s t u v ba bb hs ht hu hv e =
    absurd (quoted-ne-fault b t s v u (cc (ht)) (fault_shown n s hs).1 (sym e))
string_told (errno m) (errno n) s t u v ba bb hs ht hu hv e =
    let (fm, a) = fault_shown m s hs in
    let (fn, b) = fault_shown n t ht in ((fm, fn), both_fault s t u v a b e)
