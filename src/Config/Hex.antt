-- ===== src/Config/Hex.antt =====
-- `hex2bytes` of src/config/file_config.cpp, with `std::stoul` to base 16 as it treats two characters.
use gravelbox.Base.{
  ℕ, suc, ◌+◌, ◌-◌, ◌*◌, ◌/◌, ◌%◌, ◌^◌, ◌<◌, ◌≡◌, refl, Bytes, [], ◌∷◌, Bool, ◌&&◌, ◌||◌, ◌==◌, ltb,
  leb, if◌then◌else◌, Option, none, some, length, All, arith,
}
use gravelbox.Base.Options.{◌>>=◌}

-- std::isspace in the "C" locale.
unfoldable pub is_space : ℕ → Bool
is_space c = c == b' ' || (leb 9 c && leb c 13)

-- The value of a hexadecimal digit, of either case.
unfoldable pub hex_value : ℕ → Option ℕ
hex_value c =
    if leb b'0' c && leb c b'9'
    then some (c - b'0')
    else if leb b'a' c && leb c b'f'
    then some (c - b'a' + 10)
    else if leb b'A' c && leb c b'F'
    then some (c - b'A' + 10)
    else none

-- `std::stoul(std::string{a, b}, nullptr, 16)` as a `uint8_t`: white space and a sign may stand in front,
-- what follows the digits is ignored, and `0x` with nothing behind it is a 0; `none` is
-- `std::invalid_argument`.
unfoldable pub stoul16 : ℕ → ℕ → Option ℕ
unfolding is_space hex_value
stoul16 a b =
    if is_space a || a == b'+'
    then hex_value b
    else if a == b'-'
    then (do d ← hex_value b; some ((2 ^ 64 - d) % 2 ^ 64 % 256))
    else (do
      high ← hex_value a
      elim (hex_value b) [ none ↦ some high | some low ↦ some (high * 16 + low) ])

-- The loop over pairs of characters; `none` is the error "invalid hex string".
unfoldable pub hex2bytes : Bytes → Option Bytes
unfolding stoul16
hex2bytes [] = some []
hex2bytes (a ∷ []) = none
hex2bytes (a ∷ b ∷ s) = do byte ← stoul16 a b; bytes ← hex2bytes s; some (byte ∷ bytes)

-- The usual hexadecimal notation, in lower case.
hex_char : ℕ → ℕ
hex_char d = if ltb d 10 then b'0' + d else b'a' + (d - 10)

unfoldable pub to_hex : Bytes → Bytes
unfolding hex_char
to_hex [] = []
to_hex (b ∷ bs) = hex_char (b / 16) ∷ hex_char (b % 16) ∷ to_hex bs

stoul16-hex_char : (b : ℕ) → b < 256 → stoul16 (hex_char (b / 16)) (hex_char (b % 16)) ≡ some b
unfolding stoul16 hex_char
stoul16-hex_char b h = ground arith

-- Every string of bytes below 256 is read back from its hexadecimal notation.
pub hex2bytes-to_hex : (bs : Bytes) → All (λ b. b < 256) bs → hex2bytes (to_hex bs) ≡ some bs
unfolding hex2bytes to_hex
hex2bytes-to_hex [] h = refl
hex2bytes-to_hex (b ∷ bs) (hb, hs) = rw (stoul16-hex_char b hb) (rw (hex2bytes-to_hex bs hs) refl)

stoul16-lt : (a b : ℕ) {d : ℕ} → stoul16 a b ≡ some d → d < 256
unfolding stoul16
stoul16-lt a b h = ground arith

pairs_sound :
    (x : Option ℕ) (r : Option Bytes) (n : ℕ) {bs : Bytes}
    → ((d : ℕ) → x ≡ some d → d < 256)
    → ((cs : Bytes) → r ≡ some cs → (n ≡ 2 * length cs) × All (λ b. b < 256) cs)
    → (do byte ← x; bytes ← r; some (byte ∷ bytes)) ≡ some bs
    → (suc (suc n) ≡ 2 * length bs) × All (λ b. b < 256) bs
pairs_sound none r n fit more h = cc
pairs_sound (some d) none n fit more h = cc
pairs_sound (some d) (some cs) n {bs = []} fit more h = cc
pairs_sound (some d) (some cs) n {bs = e ∷ bs} fit more h =
    let (len, small) = more bs (ground arith) in (omega arith, (fit e (ground arith), small))

-- What is accepted is twice as long as the result, and the result is made of bytes.
hex2bytes_sound :
    (s : Bytes) (bs : Bytes)
    → hex2bytes s ≡ some bs
    → (length s ≡ 2 * length bs) × All (λ b. b < 256) bs
unfolding hex2bytes
hex2bytes_sound [] [] h = (omega arith, tt)
hex2bytes_sound [] (b ∷ bs) h = cc
hex2bytes_sound (a ∷ []) bs h = cc
hex2bytes_sound (a ∷ b ∷ s) bs h =
    pairs_sound (stoul16 a b) (hex2bytes s) (length s) (λ d. stoul16-lt a b) (hex2bytes_sound s) h

-- A digit followed by a character that is no digit is accepted in front of text that is, and stands for
-- the digit alone.
hex2bytes_lenient :
    (a b : ℕ) (s : Bytes) {d : ℕ} {bs : Bytes}
    → hex_value a ≡ some d
    → hex_value b ≡ none
    → hex2bytes s ≡ some bs
    → hex2bytes (a ∷ b ∷ s) ≡ some (d ∷ bs)
unfolding hex2bytes
hex2bytes_lenient a b s ha hb hs = ground arith
