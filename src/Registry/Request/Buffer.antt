-- ===== src/Registry/Request/Buffer.antt =====
-- request.cpp: the buffer that `readRequest` reads into.
use race_slothy.Common.{
  ℕ, zero, suc, ◌+◌, ◌≤◌, ◌<◌, ◌≡◌, refl, sym, ap, ◌∙◌, true, false, some, [], ◌∷◌, ◌++◌, arith,
  Bytes, ltb, ◌==◌, length, length-append, length-drop, length-replicate, append_assoc, take,
  take_left, drop, replicate, All, inl, inr, Bool-cases,
}
use race_slothy.Registry.Http.{c_str}
use race_slothy.Registry.Request.{bufsiz, clear_buffer, ssl_read, buffer_string}

-- A read of some bytes, none of which is zero, that does not fill the buffer.
abbrev pub IsText : Bytes → Type 0
IsText r = (0 < length r) × All (λ (c : ℕ). 0 < c) r × (length r < bufsiz)

-- The last byte of the buffer is zero.
abbrev pub EndsInZero : Bytes → Type 0
EndsInZero buf = (front : Bytes) × (length front + 1 ≡ bufsiz) × (buf ≡ front ++ 0 ∷ [])

c_str-append : (s t : Bytes) → All (λ (c : ℕ). 0 < c) s → c_str (s ++ t) ≡ s ++ c_str t
unfolding c_str
c_str-append [] t h = refl
c_str-append (c ∷ s) t (here, h) =
    let other : (c == 0) ≡ false = ground arith in rw (other, c_str-append s t h) refl

c_str-shorter : (front : Bytes) → length (c_str (front ++ 0 ∷ [])) ≤ length front
unfolding c_str
c_str-shorter [] = omega arith
c_str-shorter (c ∷ front) = elim (Bool-cases (c == 0)) [
  | inl zero_here ↦ rw zero_here (omega arith)
  | inr other ↦ rw other (omega (arith, c_str-shorter front))
]

drop_within : (n : ℕ) (s t : Bytes) → n ≤ length s → drop n (s ++ t) ≡ drop n s ++ t
drop_within zero s t h = refl
drop_within (suc n) [] t h = absurd (omega arith)
drop_within (suc n) (c ∷ s) t h = drop_within n s t (omega arith)

replicate-last : (n : ℕ) → replicate {A = ℕ} (suc n) 0 ≡ replicate n 0 ++ 0 ∷ []
replicate-last zero = refl
replicate-last (suc n) = ap (λ (s : Bytes). 0 ∷ s) (replicate-last n)

pub clear_buffer-EndsInZero : EndsInZero clear_buffer
unfolding clear_buffer
clear_buffer-EndsInZero =
    (replicate 8191 0, omega (arith, length-replicate {A = ℕ} 8191 0), replicate-last 8191)

-- A read that is a text leaves a buffer with a zero at its end, and the string of the buffer begins
-- with the bytes that were read.
pub ssl_read-string :
    (r buf : Bytes)
    → IsText r
    → EndsInZero buf
    → (s : Bytes) × (buffer_string (ssl_read r buf) ≡ some s)
      × (take (length r) s ≡ r)
      × EndsInZero (ssl_read r buf)
unfolding ssl_read buffer_string
ssl_read-string r buf (some_byte, bytes, fits) (front, size, is) =
    let left = drop (length r) front in
    let joined : ssl_read r buf ≡ (r ++ left) ++ 0 ∷ [] =
      ap (λ (b : Bytes). r ++ drop (length r) b) is
      ∙ ap (λ (b : Bytes). r ++ b) (drop_within (length r) front (0 ∷ []) (omega arith))
      ∙ sym (append_assoc r left (0 ∷ [])) in
    let full : length (r ++ left) + 1 ≡ bufsiz =
      omega (arith, length-append r left, length-drop (length r) front) in
    let shorter : ltb (length (c_str ((r ++ left) ++ 0 ∷ []))) (length ((r ++ left) ++ 0 ∷ []))
        ≡ true =
      ground (arith, c_str-shorter (r ++ left), length-append (r ++ left) (0 ∷ [])) in
    let begins : c_str ((r ++ left) ++ 0 ∷ []) ≡ r ++ c_str (left ++ 0 ∷ []) =
      ap c_str (append_assoc r left (0 ∷ [])) ∙ c_str-append r (left ++ 0 ∷ []) bytes in
    (
      c_str ((r ++ left) ++ 0 ∷ []),
      ap buffer_string joined ∙ (rw shorter refl),
      ap (λ (s : Bytes). take (length r) s) begins ∙ take_left r (c_str (left ++ 0 ∷ [])) refl,
      (r ++ left, full, joined),
    )
