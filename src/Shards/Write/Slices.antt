-- ===== src/Shards/Write/Slices.antt =====
-- The data devices that a block is cut into.
use native.Mathlib.Nat.{zero-mul}
use race_slothy.Common.{
  ℕ, zero, suc, ◌+◌, ◌*◌, ◌%◌, ◌≡◌, refl, ap, ◌∙◌, List, [], ◌∷◌, arith, Bytes, length, take, drop,
  flatten, take-append-drop, All, length-take, length-drop, drop-drop, take_left, drop_left,
}
use race_slothy.Shards.{IsBlocks}
use race_slothy.Shards.Write.{slices}

pieces : ℕ → ℕ → Bytes → List Bytes
pieces zero b xs = []
pieces (suc n) b xs = take b xs ∷ pieces n b (drop b xs)

slices-pieces : (n i b : ℕ) (xs : Bytes) → slices n i b xs ≡ pieces n b (drop (i * b) xs)
unfolding slices pieces
slices-pieces zero i b xs = refl
slices-pieces (suc n) i b xs =
    let next : drop b (drop (i * b) xs) ≡ drop ((i + 1) * b) xs =
      drop-drop (i * b) b xs ∙ ap (λ (k : ℕ). drop k xs) (grind arith) in
    rw (slices-pieces n (i + 1) b xs, ← next) refl

flatten-pieces : (n b : ℕ) (xs : Bytes) → length xs ≡ n * b → flatten (pieces n b xs) ≡ xs
unfolding pieces
flatten-pieces zero b [] h = refl
flatten-pieces zero b (x ∷ xs) h = absurd (omega arith)
flatten-pieces (suc n) b xs h =
    rw (flatten-pieces n b (drop b xs) (omega (arith, length-drop b xs))) (take-append-drop b xs)

pieces_sizes :
    (n b : ℕ) (xs : Bytes)
    → length xs ≡ n * b
    → (length (pieces n b xs) ≡ n) × All (λ (p : Bytes). length p ≡ b) (pieces n b xs)
unfolding pieces
pieces_sizes zero b xs h = (refl, tt)
pieces_sizes (suc n) b xs h =
    let (count, sizes) = pieces_sizes n b (drop b xs) (omega (arith, length-drop b xs)) in
    (ap suc count, (omega (arith, length-take b xs), sizes))

-- The data devices make up the block that they are cut from.
pub flatten-slices : (n b : ℕ) (xs : Bytes) → length xs ≡ n * b → flatten (slices n 0 b xs) ≡ xs
flatten-slices n b xs h = rw (slices-pieces, zero-mul) (flatten-pieces n b xs h)

pub slices-IsBlocks :
    (n b : ℕ) (xs : Bytes) → length xs ≡ n * b → b % 8 ≡ 0 → IsBlocks n b (slices n 0 b xs)
slices-IsBlocks n b xs h e =
    let (count, sizes) = pieces_sizes n b xs h in rw (slices-pieces, zero-mul) (count, sizes, e)

pieces-flatten :
    (n b : ℕ) (bs : List Bytes)
    → length bs ≡ n
    → All (λ (x : Bytes). length x ≡ b) bs
    → pieces n b (flatten bs) ≡ bs
unfolding pieces
pieces-flatten zero b [] h sizes = refl
pieces-flatten zero b (x ∷ bs) h sizes = absurd (omega arith)
pieces-flatten (suc n) b [] h sizes = absurd (omega arith)
pieces-flatten (suc n) b (x ∷ bs) h (size, sizes) =
    rw
      (
        take_left x (flatten bs) size,
        drop_left x (flatten bs) size,
        pieces-flatten n b bs (omega arith) sizes,
      )
      refl

-- Blocks that are joined are cut apart again.
pub slices-flatten :
    (n b : ℕ) (bs : List Bytes)
    → length bs ≡ n
    → All (λ (x : Bytes). length x ≡ b) bs
    → slices n 0 b (flatten bs) ≡ bs
slices-flatten n b bs h sizes = rw (slices-pieces, zero-mul) (pieces-flatten n b bs h sizes)
