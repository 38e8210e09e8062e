-- ===== src/Header/RoundTrip.antt =====
-- rs_shard.cpp: `randomize_header` and `unrandomize_header` together, and the bounds of their buffers.
use race_slothy.Common.{
  suc, ◌+◌, ◌-◌, ◌^◌, ◌≤◌, ◌<◌, ◌≡◌, refl, sym, ap, ◌∙◌, ◌↔◌, inl, inr, some, false, [], ◌∷◌, ◌++◌,
  arith, Bytes, length, take, drop, length-append, length-drop, append-nil, drop_all, take_left,
  drop_left, take_all, bit_xor_undo, ltb, Malloc, ftruncate_self, Bool-cases,
}
use native.Mathlib.Decide.{dec_lt}
use race_slothy.Header.{Sha256, wrote, fault, xor_bytes, randomize_header, unrandomize_header}
use race_slothy.Header.Mask.{mask, length-mask, keystream-mask, keystream_small}

length-xor_bytes : (xs ys : Bytes) → length xs ≡ length ys → length (xor_bytes xs ys) ≡ length xs
unfolding xor_bytes
length-xor_bytes [] ys h = refl
length-xor_bytes (x ∷ xs) [] h = absurd (omega arith)
length-xor_bytes (x ∷ xs) (y ∷ ys) h = ap suc (length-xor_bytes xs ys (omega arith))

xor_bytes_undo : (xs ys : Bytes) → length xs ≡ length ys → xor_bytes (xor_bytes xs ys) ys ≡ xs
unfolding xor_bytes
xor_bytes_undo [] ys h = refl
xor_bytes_undo (x ∷ xs) [] h = absurd (omega arith)
xor_bytes_undo (x ∷ xs) (y ∷ ys) h = rw (bit_xor_undo x y, xor_bytes_undo xs ys (omega arith)) refl

wrote_not_fault : {out : Bytes} → wrote out ≡ fault → ⊥
wrote_not_fault e = cc

module _ (sha : Sha256) (heap : Malloc) where
  -- What `randomize_header` writes.
  unfoldable pub randomized : Bytes → Bytes → Bytes
  randomized pre file = pre ++ xor_bytes file (mask sha pre (length file))

  length-randomized :
      (pre file : Bytes)
      → length pre ≡ 32
      → 32 ≤ length file
      → length (randomized pre file) ≡ length file + 32
  unfolding randomized
  length-randomized pre file hp hf =
      let m = mask sha pre (length file) in
      omega (
        arith,
        length-append pre (xor_bytes file m),
        length-xor_bytes file m (sym (length-mask sha pre (length file) hf)),
      )

  -- With a pre-image of 32 bytes and a file of at least 32, `randomize_header` writes the pre-image
  -- and behind it the file, each byte combined with the byte of the mask at its place.
  pub randomize_header-mask :
      (pre file : Bytes)
      → length pre ≡ 32
      → 32 ≤ length file
      → length file + 32 < 2 ^ 31
      → randomize_header sha heap (some file) (some pre)
        ≡ wrote (pre ++ xor_bytes file (mask sha pre (length file)))
  unfolding randomize_header randomized
  randomize_header-mask pre file hp hf small =
      rw (keystream-mask sha heap pre (length file) hf, randomize_header)
        (ap wrote (ftruncate_self (randomized pre file) (length-randomized pre file hp hf)))

  unrandomize_header-mask :
      (file : Bytes)
      → 64 ≤ length file
      → unrandomize_header sha heap (some file)
        ≡ wrote (xor_bytes (drop 32 file) (mask sha (take 32 file) (length file - 32)))
  unfolding unrandomize_header
  unrandomize_header-mask file h =
      let long_enough : ltb (length file) 32 ≡ false = ground arith in
      rw
        (
          long_enough,
          keystream-mask sha heap (take 32 file) (length file - 32) (omega arith),
          drop_all (32 + (length file - 32)) file (omega arith),
          take_all (length file - 32) (drop 32 file) (omega (arith, length-drop 32 file)),
          append-nil,
        )
        refl

  pub unrandomize-randomized :
      (pre file : Bytes)
      → length pre ≡ 32
      → 32 ≤ length file
      → unrandomize_header sha heap (some (randomized pre file)) ≡ wrote file
  unrandomize-randomized pre file hp hf =
      unrandomize_header-mask (randomized pre file)
        (omega (arith, length-randomized pre file hp hf))
      ∙ ap wrote undone
    where
      covered : Bytes
      covered = xor_bytes file (mask sha pre (length file))

      undone :
          xor_bytes
            (drop 32 (randomized pre file))
            (mask sha (take 32 (randomized pre file)) (length (randomized pre file) - 32))
          ≡ file
      undone =
          unfold randomized in
          let back : length file + 32 - 32 ≡ length file = omega arith in
          rw (drop_left pre covered hp, take_left pre covered hp, length-randomized, back)
            (xor_bytes_undo file _ (sym (length-mask sha pre (length file) hf)))

  -- A file of at least 32 bytes that `randomize_header` has written, with any pre-image, is given
  -- back by `unrandomize_header`, whatever the blocks of `malloc` hold.
  pub unrandomize-randomize :
      (pre file : Bytes)
      → length pre ≡ 32
      → 32 ≤ length file
      → length file + 32 < 2 ^ 31
      → (out : Bytes) × (randomize_header sha heap (some file) (some pre) ≡ wrote out)
        × (length out ≡ length file + 32)
        × (unrandomize_header sha heap (some out) ≡ wrote file)
  unrandomize-randomize pre file hp hf small = (
    randomized pre file,
    unfold randomized in randomize_header-mask pre file hp hf small,
    length-randomized pre file hp hf,
    unrandomize-randomized pre file hp hf,
  )

  -- `randomize_header` of an opened file, with a pre-image, writes outside of a buffer exactly
  -- when the file has fewer than 32 bytes.
  pub randomize_header-fault_iff :
      (pre file : Bytes)
      → length pre ≡ 32
      → length file + 32 < 2 ^ 31
      → (randomize_header sha heap (some file) (some pre) ≡ fault) ↔ (length file < 32)
  randomize_header-fault_iff pre file hp small = elim (dec_lt (length file) 32) [
    | yes short ↦ (
      λ _. short,
      λ _.
          unfold randomize_header in
          rw (keystream_small sha heap pre (length file) short, randomize_header) refl,
    )
    | no long ↦ (
      λ e.
          absurd
            (wrote_not_fault (sym (randomize_header-mask pre file hp (omega arith) small) ∙ e)),
      λ short. absurd (long short),
    )
  ]

  unrandomize_header_small :
      (file : Bytes) → length file < 64 → unrandomize_header sha heap (some file) ≡ fault
  unfolding unrandomize_header
  unrandomize_header_small file h = elim (Bool-cases (ltb (length file) 32)) [
    | inl e ↦ rw e refl
    | inr e ↦ rw (e, keystream_small sha heap (take 32 file) (length file - 32) (omega arith)) refl
  ]

  -- `unrandomize_header` of an opened file writes outside of a buffer exactly when the file has
  -- fewer than 64 bytes.
  pub unrandomize_header-fault_iff :
      (file : Bytes)
      → length file < 2 ^ 31
      → (unrandomize_header sha heap (some file) ≡ fault) ↔ (length file < 64)
  unrandomize_header-fault_iff file small = elim (dec_lt (length file) 64) [
    | yes short ↦ (λ _. short, λ _. unrandomize_header_small file short)
    | no long ↦ (
      λ e. absurd (wrote_not_fault (sym (unrandomize_header-mask file (omega arith)) ∙ e)),
      λ short. absurd (long short),
    )
  ]
