-- ===== src/Base64/RoundTrip.antt =====
-- base64.cpp: `base64_decode` of what `base64_encode` gives.
use race_slothy.Common.{
  IsByte, ℕ, ◌+◌, ◌*◌, ◌/◌, ◌%◌, ◌<◌, ◌≡◌, refl, ap, ◌∙◌, [], ◌∷◌, ◌++◌, arith, Bytes, All, length,
  ◌^◌, take, append-nil, append_assoc,
}
use race_slothy.Base64.{
  char_at, octets, sextets, Held, held0, held1, held2, spell, encode_tail, encode_loop,
  base64_encode, Quad, quad0, push, complete, decode_tail, decode_loop, base64_decode,
}
use race_slothy.Base64.Masks.{
  sextets_digits, octets_digits, char_at-find_char, char_at_accepted, find_char-zero,
}

-- The encoder only appends.
pub encode_loop-append :
    (bs : Bytes) (h : Held) (ret : Bytes) → encode_loop bs h ret ≡ ret ++ encode_loop bs h []
unfolding encode_loop
encode_loop-append [] h ret = refl
encode_loop-append (x ∷ bs) held0 ret = encode_loop-append bs (held1 x) ret
encode_loop-append (x ∷ bs) (held1 a) ret = encode_loop-append bs (held2 a x) ret
encode_loop-append (x ∷ bs) (held2 a b) ret =
    let out = spell (sextets a b x) in
    rw (encode_loop-append bs held0 (ret ++ out), encode_loop-append bs held0 out, append_assoc)

decode_char :
    (i : ℕ) (t : Bytes) (q : Quad) (ret : Bytes)
    → i < 64
    → decode_loop (char_at i ∷ t) q ret
      ≡ decode_loop t (push q (char_at i)) (ret ++ complete q (char_at i))
unfolding decode_loop
decode_char i t q ret h = rw (char_at_accepted i h) refl

-- Four characters decode to the bytes of their indices.
decode_group :
    (i j k l : ℕ) (t : Bytes) (ret : Bytes)
    → i < 64
    → j < 64
    → k < 64
    → l < 64
    → decode_loop (char_at i ∷ char_at j ∷ char_at k ∷ char_at l ∷ t) quad0 ret
      ≡ decode_loop t quad0 (ret ++ octets i j k l)
decode_group i j k l t ret hi hj hk hl =
    rw
      (
        decode_char i _ _ _ hi,
        decode_char j _ _ _ hj,
        decode_char k _ _ _ hk,
        decode_char l _ _ _ hl,
      )
      (unfold push complete in
        simp (
          append-nil,
          char_at-find_char i hi,
          char_at-find_char j hj,
          char_at-find_char k hk,
          char_at-find_char l hl,
        ))

octets-sextets :
    (a b c : ℕ)
    → a < 256
    → b < 256
    → c < 256
    → octets (a / 4) (a % 4 * 16 + b / 16) (b % 16 * 4 + c / 64) (c % 64) ≡ a ∷ b ∷ c ∷ []
octets-sextets a b c ha hb hc =
    rw
      (octets_digits (a / 4) (a % 4 * 16 + b / 16) (b % 16 * 4 + c / 64) (c % 64) (omega arith)
        (omega arith) (omega arith) (omega arith))
      (ground arith)

decode_spelled :
    (a b c : ℕ) (t ret : Bytes)
    → a < 256
    → b < 256
    → c < 256
    → decode_loop (spell (sextets a b c) ++ t) quad0 ret
      ≡ decode_loop t quad0 (ret ++ a ∷ b ∷ c ∷ [])
unfolding spell
decode_spelled a b c t ret ha hb hc = rw (
  sextets_digits a b c ha hb hc,
  decode_group (a / 4) (a % 4 * 16 + b / 16) (b % 16 * 4 + c / 64) (c % 64) t ret (omega arith)
      (omega arith) (omega arith) (omega arith),
  octets-sextets a b c ha hb hc,
)

decode_one :
    (a : ℕ) (ret : Bytes) → a < 256 → decode_loop (encode_tail (held1 a)) quad0 ret ≡ ret ++ a ∷ []
unfolding encode_tail spell
decode_one a ret ha =
    rw
      (
        sextets_digits a 0 0 ha (omega arith) (omega arith),
        decode_char (a / 4) _ _ _ (omega arith),
        decode_char (a % 4 * 16 + 0 / 16) _ _ _ (omega arith),
      )
      (unfold push complete decode_loop decode_tail in
        simp
          (
            append-nil,
            char_at-find_char (a / 4) (omega arith),
            char_at-find_char (a % 4 * 16 + 0 / 16) (omega arith),
            find_char-zero,
          )
          (ap (λ t. ret ++ take 1 t)
              (octets_digits (a / 4) (a % 4 * 16 + 0 / 16) 255 255 (omega arith) (omega arith)
                (omega arith) (omega arith))
            ∙ ground arith))

decode_two :
    (a b : ℕ) (ret : Bytes)
    → a < 256
    → b < 256
    → decode_loop (encode_tail (held2 a b)) quad0 ret ≡ ret ++ a ∷ b ∷ []
unfolding encode_tail spell
decode_two a b ret ha hb =
    rw
      (
        sextets_digits a b 0 ha hb (omega arith),
        decode_char (a / 4) _ _ _ (omega arith),
        decode_char (a % 4 * 16 + b / 16) _ _ _ (omega arith),
        decode_char (b % 16 * 4 + 0 / 64) _ _ _ (omega arith),
      )
      (unfold push complete decode_loop decode_tail in
        simp
          (
            append-nil,
            char_at-find_char (a / 4) (omega arith),
            char_at-find_char (a % 4 * 16 + b / 16) (omega arith),
            char_at-find_char (b % 16 * 4 + 0 / 64) (omega arith),
            find_char-zero,
          )
          (ap (λ t. ret ++ take 2 t)
              (octets_digits (a / 4) (a % 4 * 16 + b / 16) (b % 16 * 4 + 0 / 64) 255 (omega arith)
                (omega arith) (omega arith) (omega arith))
            ∙ ground arith))

decode_encoded :
    (bs : Bytes) (ret : Bytes)
    → All IsByte bs
    → decode_loop (encode_loop bs held0 []) quad0 ret ≡ ret ++ bs
unfolding encode_loop
decode_encoded [] ret h = unfold decode_loop decode_tail encode_tail in refl
decode_encoded (a ∷ []) ret (ha, _) = decode_one a ret ha
decode_encoded (a ∷ b ∷ []) ret (ha, (hb, _)) = decode_two a b ret ha hb
decode_encoded (a ∷ b ∷ c ∷ bs) ret (ha, (hb, (hc, h))) = rw (
  encode_loop-append bs held0 (spell (sextets a b c)),
  decode_spelled a b c _ ret ha hb hc,
  decode_encoded bs (ret ++ a ∷ b ∷ c ∷ []) h,
  append_assoc,
)

-- Decoding the encoding of bytes gives them back, where the number of characters of the encoding,
-- four for each three bytes or part of three, fits the `int` that counts them.
pub base64_decode-encode :
    (bs : Bytes)
    → All IsByte bs
    → 4 * ((length bs + 2) / 3) < 2 ^ 31
    → base64_decode (base64_encode bs) ≡ bs
unfolding base64_decode base64_encode
base64_decode-encode bs h small = decode_encoded bs [] h
