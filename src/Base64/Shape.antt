-- ===== src/Base64/Shape.antt =====
-- The shape of what `base64_encode` writes and of what `base64_decode` reads.
use race_slothy.Common.{
  IsByte, ℕ, ◌+◌, ◌*◌, ◌/◌, ◌%◌, ◌<◌, ◌≡◌, refl, ap, ◌∙◌, Bool, true, false, not, ◌&&◌, ◌||◌, [],
  ◌∷◌, ◌++◌, arith, Bytes, All, All-append, length, length-append, ◌==◌, Bool-cases, inl, inr,
}
use race_slothy.Base64.{
  char_at, sextets, held0, spell, encode_tail, encode_loop, is_base64, base64_encode, Quad, quad0,
  push, complete, decode_loop, base64_decode,
}
use race_slothy.Base64.Masks.{sextets_digits, char_at_accepted}
use race_slothy.Base64.RoundTrip.{encode_loop-append}

-- A character that the decoder reads on from.
abbrev pub accepted : ℕ → Bool
accepted c = not (c == b'=') && is_base64 c

-- A character of the alphabet, or the padding sign.
abbrev pub IsSymbol : ℕ → Type 0
IsSymbol c = (accepted c || c == b'=') ≡ true

length-spell : (is : Bytes) → length (spell is) ≡ length is
unfolding spell
length-spell [] = refl
length-spell (i ∷ is) = omega (arith, length-spell is)

length-encode_loop : (bs : Bytes) → length (encode_loop bs held0 []) ≡ 4 * ((length bs + 2) / 3)
unfolding encode_loop encode_tail spell sextets
length-encode_loop [] = refl
length-encode_loop (a ∷ []) = refl
length-encode_loop (a ∷ b ∷ []) = refl
length-encode_loop (a ∷ b ∷ c ∷ bs) =
    ap length (encode_loop-append bs held0 (spell (sextets a b c)))
    ∙ length-append (spell (sextets a b c)) _
    ∙ omega (arith, length-encode_loop bs)

symbol : (i : ℕ) → i < 64 → IsSymbol (char_at i)
symbol i h = ground (arith, char_at_accepted i h)

spell_symbols : (is : Bytes) → All (λ i. i < 64) is → All IsSymbol (spell is)
unfolding spell
spell_symbols [] h = tt
spell_symbols (i ∷ is) (hi, h) = (symbol i hi, spell_symbols is h)

spell_then :
    (is tail : Bytes) → All (λ i. i < 64) is → All IsSymbol tail → All IsSymbol (spell is ++ tail)
spell_then is tail h t = All-append IsSymbol (spell is) tail (spell_symbols is h) t

encode_symbols : (bs : Bytes) → All IsByte bs → All IsSymbol (encode_loop bs held0 [])
unfolding encode_loop encode_tail
encode_symbols [] h = tt
encode_symbols (a ∷ []) (ha, _) = rw (sextets_digits a 0 0 ha (omega arith) (omega arith)) (
    spell_then (a / 4 ∷ (a % 4 * 16 + 0 / 16) ∷ []) (61 ∷ 61 ∷ []) (omega arith) (refl, (refl, tt)))
encode_symbols (a ∷ b ∷ []) (ha, (hb, _)) = rw (sextets_digits a b 0 ha hb (omega arith)) (
    spell_then (a / 4 ∷ (a % 4 * 16 + b / 16) ∷ (b % 16 * 4 + 0 / 64) ∷ []) (61 ∷ []) (omega arith)
      (refl, tt))
encode_symbols (a ∷ b ∷ c ∷ bs) (ha, (hb, (hc, h))) =
    rw (encode_loop-append bs held0 (spell (sextets a b c)), sextets_digits a b c ha hb hc)
      (spell_then (a / 4 ∷ (a % 4 * 16 + b / 16) ∷ (b % 16 * 4 + c / 64) ∷ c % 64 ∷ []) _
        (omega arith) (encode_symbols bs h))

-- The encoding of bytes has four characters for each group of three, the last one included, and
-- holds nothing but characters of the alphabet and `=`.
pub base64_encode_shape :
    (bs : Bytes)
    → All IsByte bs
    → (length (base64_encode bs) ≡ 4 * ((length bs + 2) / 3)) × All IsSymbol (base64_encode bs)
unfolding base64_encode
base64_encode_shape bs h = (length-encode_loop bs, encode_symbols bs h)

decode_loop_stop :
    (s : Bytes) (c : ℕ) (t : Bytes) (q : Quad) (ret : Bytes)
    → accepted c ≡ false
    → decode_loop (s ++ c ∷ t) q ret ≡ decode_loop s q ret
unfolding decode_loop
decode_loop_stop [] c t q ret h = rw h refl
decode_loop_stop (d ∷ s) c t q ret h = elim (Bool-cases (accepted d)) [
  | inl e ↦ rw e (decode_loop_stop s c t (push q d) (ret ++ complete q d) h)
  | inr e ↦ rw e refl
]

-- Decoding ends at the first character that is `=` or not of the alphabet: what follows it does
-- not matter.
pub base64_decode_stop :
    (s : Bytes) (c : ℕ) (t : Bytes)
    → accepted c ≡ false
    → base64_decode (s ++ c ∷ t) ≡ base64_decode s
unfolding base64_decode
base64_decode_stop s c t = decode_loop_stop s c t quad0 []
