-- ===== src/Shards/Unshard/Toy.antt =====
-- A concrete erasure code, which the tests of `rs_unshard_fd` take for Jerasure: every coding device
-- holds the data devices as the digits to base 256 of its numbers.
use race_slothy.Common.{
  ℕ, zero, suc, ◌+◌, ◌-◌, ◌*◌, ◌/◌, ◌%◌, ◌^◌, ◌<◌, ◌≤◌, ◌≡◌, refl, ap, ◌∙◌, sym, ◌⊎◌, inl, inr,
  Bool-cases, true, Option, none, some, List, [], ◌∷◌, arith, Bytes, IsByte, length, replicate,
  ◌==◌, if◌then◌else◌, length-replicate, All, All-replicate, member,
}
use race_slothy.Shards.{IsBlocks, Jerasure}
use race_slothy.Shards.Unshard.{AgreeBut, Decoder}
use race_slothy.Shards.Unshard.Count.{count, count_nil, count_below}

digit_on : Bytes → Bytes → Bytes
digit_on [] ys = []
digit_on (x ∷ xs) [] = x ∷ digit_on xs []
digit_on (x ∷ xs) (y ∷ ys) = (x + 256 * y) ∷ digit_on xs ys

pack : ℕ → List Bytes → Bytes
pack size [] = replicate size 0
pack size (b ∷ blocks) = digit_on b (pack size blocks)

low : Bytes → Bytes
low [] = []
low (x ∷ xs) = x % 256 ∷ low xs

high : Bytes → Bytes
high [] = []
high (x ∷ xs) = x / 256 ∷ high xs

unpack : ℕ → Bytes → List Bytes
unpack zero xs = []
unpack (suc n) xs = low xs ∷ unpack n (high xs)

length-digit_on : (xs ys : Bytes) → length (digit_on xs ys) ≡ length xs
unfolding digit_on
length-digit_on [] ys = refl
length-digit_on (x ∷ xs) [] = ap suc (length-digit_on xs [])
length-digit_on (x ∷ xs) (y ∷ ys) = ap suc (length-digit_on xs ys)

digit_on_zeros : (n : ℕ) (xs : Bytes) → length xs ≡ n → digit_on xs (replicate n 0) ≡ xs
unfolding digit_on
digit_on_zeros n [] h = refl
digit_on_zeros zero (x ∷ xs) h = absurd (omega arith)
digit_on_zeros (suc n) (x ∷ xs) h =
    let self : x + 256 * 0 ≡ x = omega arith in rw (self, digit_on_zeros n xs (omega arith)) refl

low-digit_on : (xs ys : Bytes) → length xs ≡ length ys → All IsByte xs → low (digit_on xs ys) ≡ xs
unfolding low digit_on
low-digit_on [] ys h bytes = refl
low-digit_on (x ∷ xs) [] h bytes = absurd (omega arith)
low-digit_on (x ∷ xs) (y ∷ ys) h (byte, bytes) =
    let digit : (x + 256 * y) % 256 ≡ x = omega arith in
    rw (digit, low-digit_on xs ys (omega arith) bytes) refl

high-digit_on : (xs ys : Bytes) → length xs ≡ length ys → All IsByte xs → high (digit_on xs ys) ≡ ys
unfolding high digit_on
high-digit_on [] [] h bytes = refl
high-digit_on [] (y ∷ ys) h bytes = absurd (omega arith)
high-digit_on (x ∷ xs) [] h bytes = absurd (omega arith)
high-digit_on (x ∷ xs) (y ∷ ys) h (byte, bytes) =
    let digits : (x + 256 * y) / 256 ≡ y = omega arith in
    rw (digits, high-digit_on xs ys (omega arith) bytes) refl

length-pack :
    (size : ℕ) (blocks : List Bytes)
    → All (λ (b : Bytes). length b ≡ size) blocks
    → length (pack size blocks) ≡ size
unfolding pack
length-pack size [] sizes = length-replicate {A = ℕ} size 0
length-pack size (b ∷ blocks) (h, sizes) = length-digit_on b (pack size blocks) ∙ h

unpack-pack :
    (n size : ℕ) (blocks : List Bytes)
    → length blocks ≡ n
    → All (λ (b : Bytes). length b ≡ size) blocks
    → All (λ (b : Bytes). All IsByte b) blocks
    → unpack n (pack size blocks) ≡ blocks
unfolding unpack pack
unpack-pack zero size [] e sizes bytes = refl
unpack-pack zero size (b ∷ blocks) e sizes bytes = absurd (omega arith)
unpack-pack (suc n) size [] e sizes bytes = absurd (omega arith)
unpack-pack (suc n) size (b ∷ blocks) e (h, sizes) (byte, bytes) =
    let same : length b ≡ length (pack size blocks) = h ∙ sym (length-pack size blocks sizes) in
    rw
      (
        low-digit_on b (pack size blocks) same byte,
        high-digit_on b (pack size blocks) same byte,
        unpack-pack n size blocks (omega arith) sizes bytes,
      )
      refl

pack_zeros : (n size : ℕ) → pack size (replicate n (replicate size 0)) ≡ replicate size 0
unfolding pack
pack_zeros zero size = refl
pack_zeros (suc n) size =
    rw (pack_zeros n size)
      (digit_on_zeros size (replicate size 0) (length-replicate {A = ℕ} size 0))

pub packs : ℕ → ℕ → ℕ → ℕ → List Bytes → ℕ → List Bytes
packs k m w matrix blocks size = replicate m (pack size blocks)

pub packs-IsBlocks :
    (k m size : ℕ) (blocks : List Bytes)
    → 0 < k
    → k + m < 2 ^ 32
    → IsBlocks k size blocks
    → IsBlocks m size (packs k m 32 0 blocks size)
unfolding packs
packs-IsBlocks k m size blocks h fits (number, sizes, r) = (
  length-replicate m (pack size blocks),
  All-replicate (λ (b : Bytes). length b ≡ size) m (pack size blocks)
      (length-pack size blocks sizes),
  r,
)

abbrev pub packed : Jerasure
packed = record {
  Matrix = ℕ;
  vandermonde = λ k m w. 0;
  encode = packs;
  encode-IsBlocks = packs-IsBlocks;
}

pub packed_ones :
    (k m size : ℕ) (b : Bytes)
    → 0 < k
    → k + m < 2 ^ 32
    → length b ≡ size
    → size % 8 ≡ 0
    → packed.encode k m 32
        (packed.vandermonde k m 32)
        (b ∷ replicate (k - 1) (replicate size 0))
        size
      ≡ replicate m b
unfolding packs pack
packed_ones k m size b h fits size_b r =
    rw (pack_zeros (k - 1) size, digit_on_zeros size b size_b) refl

-- The first coding device that is not erased.
survivor : List ℕ → ℕ → List Bytes → Option Bytes
survivor erasures i [] = none
survivor erasures i (c ∷ coding) =
    let rest = survivor erasures (i + 1) coding in if member i erasures then rest else some c

pub unpacks : ℕ → ℕ → ℕ → ℕ → List ℕ → List Bytes → List Bytes → ℕ → Option (List Bytes)
unpacks k m w matrix erasures devs coding size = elim (survivor erasures k coding) [
  | none ↦ some devs
  | some c ↦ some (unpack k c)
]

-- A device that survives is the packed one; else every coding device is erased.
survivor_cases :
    (erasures : List ℕ) (m i : ℕ) (x : Bytes) (coding : List Bytes)
    → AgreeBut erasures i (replicate m x) coding
    → (survivor erasures i coding ≡ some x)
      ⊎ ((survivor erasures i coding ≡ none) × (count erasures i m ≡ m))
unfolding survivor AgreeBut count
survivor_cases erasures zero i x [] agree = inr (refl, refl)
survivor_cases erasures zero i x (c ∷ coding) agree = absurd agree
survivor_cases erasures (suc m) i x [] agree = absurd agree
survivor_cases erasures (suc m) i x (c ∷ coding) (same, agree) =
    elim (Bool-cases (member i erasures)) [
      | inl e ↦ elim (survivor_cases erasures m (i + 1) x coding agree) [
        | inl there ↦ inl (rw e there)
        | inr (gone, all) ↦ inr (rw e (gone, ap suc all))
      ]
      | inr e ↦ elim same [
        | inl erased ↦ absurd (ground (arith, e, erased))
        | inr eq ↦ inl (rw (e, eq) refl)
      ]
    ]

count_one_more : (p : ℕ) (ps : List ℕ) (i n : ℕ) → count (p ∷ ps) i n ≤ suc (count ps i n)
unfolding count member
count_one_more p ps i zero = omega arith
count_one_more p ps i (suc n) = elim (Bool-cases (i == p)) [
  | inl e ↦
      let later = count_below p ps (i + 1) n (ground arith) in
      rw (e, later)
        (elim (Bool-cases (member i ps)) [
          | inl h ↦ rw h (omega arith)
          | inr h ↦ rw h (omega arith)
        ])
  | inr e ↦
      let later = count_one_more p ps (i + 1) n in
      rw e (elim (Bool-cases (member i ps)) [
        | inl h ↦ rw h (omega (arith, later))
        | inr h ↦ rw h later
      ])
]

count_bound : (ps : List ℕ) (i n : ℕ) → count ps i n ≤ length ps
count_bound [] i n = omega (arith, count_nil i n)
count_bound (p ∷ ps) i n = omega (arith, count_one_more p ps i n, count_bound ps i n)

-- A number below those that are counted is one more.
count_room : (d : ℕ) (ps : List ℕ) (i n : ℕ) → member d ps ≡ true → d < i → count ps i n < length ps
unfolding member
count_room d [] i n h l = absurd (ground arith)
count_room d (p ∷ ps) i n h l = elim (Bool-cases (d == p)) [
  | inl e ↦
      let same : d ≡ p = ground arith in
      omega (arith, count_below p ps i n (omega arith), count_bound ps i n)
  | inr e ↦ omega (arith, count_one_more p ps i n, count_room d ps i n (ground (arith, h, e)) l)
]

intact :
    (erasures : List ℕ) (i k : ℕ) (xs ys : List Bytes)
    → ((d : ℕ) → d < k → ¬ (member d erasures ≡ true))
    → i + length xs ≤ k
    → AgreeBut erasures i xs ys
    → xs ≡ ys
unfolding AgreeBut
intact erasures i k [] [] kept h agree = refl
intact erasures i k [] (y ∷ ys) kept h agree = absurd agree
intact erasures i k (x ∷ xs) [] kept h agree = absurd agree
intact erasures i k (x ∷ xs) (y ∷ ys) kept h (same, agree) = elim same [
  | inl erased ↦ absurd (kept i (omega arith) erased)
  | inr eq ↦ rw (eq, intact erasures (i + 1) k xs ys kept (omega arith) agree) refl
]

pub unpacks_restores :
    (k m size : ℕ) (erasures : List ℕ) (blocks devs coding : List Bytes)
    → 0 < k
    → k + m < 2 ^ 32
    → IsBlocks k size blocks
    → All (λ (b : Bytes). All IsByte b) blocks
    → IsBlocks k size devs
    → IsBlocks m size coding
    → length erasures ≤ m
    → AgreeBut erasures 0 blocks devs
    → AgreeBut erasures k (packs k m 32 0 blocks size) coding
    → unpacks k m 32 0 erasures devs coding size ≡ some blocks
unfolding packs unpacks
unpacks_restores k m size erasures blocks devs coding h fits isb bytes devs_isb coding_isb few agree
      agree_coding =
    elim (survivor_cases erasures m k (pack size blocks) coding agree_coding) [
      | inl there ↦ rw (unpacks, there, unpack-pack k size blocks isb.0 isb.1 bytes) refl
      | inr (gone, all) ↦
          let same =
            intact erasures 0 k blocks devs
              (λ d below erased. omega (arith, count_room d erasures k m erased below))
              (omega (arith, isb.0)) agree in
          rw (unpacks, gone, same) refl
    ]

abbrev pub unpacking : Decoder packed
unpacking = record { decode = unpacks; restores = unpacks_restores }
