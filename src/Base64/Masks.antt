-- ===== src/Base64/Masks.antt =====
-- The masks and shifts of base64.cpp on a byte, and the alphabet, checked value by value.
use race_slothy.Common.{
  ℕ, ◌+◌, ◌*◌, ◌/◌, ◌%◌, ◌<◌, bit_and, ◌≡◌, refl, true, not, ◌&&◌, [], ◌∷◌, ◌==◌, arith, sweep,
  sweep_at, byte_table, u8, Bool,
}
use race_slothy.Base64.{char_at, find_char, is_base64, sextets, octets}

mask_fc : (x : ℕ) → x < 256 → bit_and x 0xfc / 4 ≡ x / 4
unfolding sweep
mask_fc x = byte_table (λ y. bit_and y 0xfc / 4) (λ y. y / 4) x refl

mask_03 : (x : ℕ) → x < 256 → bit_and x 0x03 ≡ x % 4
unfolding sweep
mask_03 x = byte_table (λ y. bit_and y 0x03) (λ y. y % 4) x refl

mask_f0 : (x : ℕ) → x < 256 → bit_and x 0xf0 / 16 ≡ x / 16
unfolding sweep
mask_f0 x = byte_table (λ y. bit_and y 0xf0 / 16) (λ y. y / 16) x refl

mask_0f : (x : ℕ) → x < 256 → bit_and x 0x0f ≡ x % 16
unfolding sweep
mask_0f x = byte_table (λ y. bit_and y 0x0f) (λ y. y % 16) x refl

mask_c0 : (x : ℕ) → x < 256 → bit_and x 0xc0 / 64 ≡ x / 64
unfolding sweep
mask_c0 x = byte_table (λ y. bit_and y 0xc0 / 64) (λ y. y / 64) x refl

mask_3f : (x : ℕ) → x < 256 → bit_and x 0x3f ≡ x % 64
unfolding sweep
mask_3f x = byte_table (λ y. bit_and y 0x3f) (λ y. y % 64) x refl

mask_30 : (x : ℕ) → x < 256 → bit_and x 0x30 / 16 ≡ x / 16 % 4
unfolding sweep
mask_30 x = byte_table (λ y. bit_and y 0x30 / 16) (λ y. y / 16 % 4) x refl

mask_3c : (x : ℕ) → x < 256 → bit_and x 0x3c / 4 ≡ x / 4 % 16
unfolding sweep
mask_3c x = byte_table (λ y. bit_and y 0x3c / 4) (λ y. y / 4 % 16) x refl

-- `sextets` as arithmetic.
pub sextets_digits :
    (a b c : ℕ)
    → a < 256
    → b < 256
    → c < 256
    → sextets a b c ≡ a / 4 ∷ (a % 4 * 16 + b / 16) ∷ (b % 16 * 4 + c / 64) ∷ c % 64 ∷ []
unfolding sextets
sextets_digits a b c ha hb hc =
    rw (mask_fc a ha, mask_03 a ha, mask_f0 b hb, mask_0f b hb, mask_c0 c hc, mask_3f c hc)
      (ground arith)

-- `octets` as arithmetic.
pub octets_digits :
    (p q r s : ℕ)
    → p < 256
    → q < 256
    → r < 256
    → s < 256
    → octets p q r s
      ≡ u8 (p * 4 + q / 16 % 4) ∷ u8 (q % 16 * 16 + r / 4 % 16) ∷ u8 (r % 4 * 64 + s) ∷ []
unfolding octets
octets_digits p q r s hp hq hr hs =
    rw (mask_30 q hq, mask_0f q hq, mask_3c r hr, mask_03 r hr) (ground arith)

-- Every index below 64 spells a character of the alphabet, which `find` maps back to it.
abbrev is_code : ℕ → Bool
unfolding is_base64 char_at find_char
is_code i = not (char_at i == b'=') && is_base64 (char_at i) && find_char (char_at i) == i

pub char_at-find_char : (i : ℕ) → i < 64 → find_char (char_at i) ≡ i
unfolding sweep is_base64 char_at find_char
char_at-find_char i lt = ground (arith, sweep_at is_code 64 i lt refl)

pub char_at_accepted : (i : ℕ) → i < 64 → (not (char_at i == b'=') && is_base64 (char_at i)) ≡ true
unfolding sweep is_base64 char_at find_char
char_at_accepted i lt = ground (arith, sweep_at is_code 64 i lt refl)

-- A zero byte is not in the alphabet: `npos`, cut to a BYTE.
pub find_char-zero : find_char 0 ≡ 255
unfolding find_char
find_char-zero = refl
