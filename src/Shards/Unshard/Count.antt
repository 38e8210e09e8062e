-- ===== src/Shards/Unshard/Count.antt =====
-- How many devices are erased when different ones are picked.
use race_slothy.Common.{
  ℕ, zero, suc, ◌+◌, ◌≤◌, ◌<◌, ◌≡◌, refl, ap, ◌∙◌, inl, inr, false, Bool-cases, List, [], ◌∷◌,
  arith, Bytes, All, member, ◌==◌, if◌then◌else◌, length,
}
use race_slothy.Shards.Unshard.{missing_ids}
use race_slothy.Shards.Unshard.Gather.{view}

-- No number twice.
unfoldable pub IsDistinct : List ℕ → Type 0
IsDistinct [] = Unit
IsDistinct (p ∷ ps) = (member p ps ≡ false) × IsDistinct ps

-- How many of the `n` numbers from `i` on are picked.
unfoldable pub count : List ℕ → ℕ → ℕ → ℕ
count picks i zero = 0
count picks i (suc n) =
    let rest = count picks (i + 1) n in if member i picks then suc rest else rest

pub count_nil : (i n : ℕ) → count [] i n ≡ 0
unfolding count member
count_nil i zero = refl
count_nil i (suc n) = count_nil (i + 1) n

pub count_below : (p : ℕ) (ps : List ℕ) (i n : ℕ) → p < i → count (p ∷ ps) i n ≡ count ps i n
unfolding count member
count_below p ps i zero h = refl
count_below p ps i (suc n) h = ground (arith, count_below p ps (i + 1) n)

count_more :
    (p : ℕ) (ps : List ℕ) (i n : ℕ)
    → member p ps ≡ false
    → i ≤ p
    → p < i + n
    → count (p ∷ ps) i n ≡ suc (count ps i n)
unfolding count member
count_more p ps i zero new low high = absurd (omega arith)
count_more p ps i (suc n) new low high = elim (Bool-cases (i == p)) [
  | inl e ↦
      let same : i ≡ p = ground arith in
      let here : member i ps ≡ false = rw same new in
      rw (e, here) (ap suc (count_below p ps (i + 1) n (omega arith)))
  | inr e ↦
      let later = count_more p ps (i + 1) n new (ground arith) (omega arith) in
      rw (e, later) (elim (Bool-cases (member i ps)) [ inl h ↦ rw h refl | inr h ↦ rw h refl ])
]

-- Different numbers below `n` are all counted.
count-All :
    (ps : List ℕ) (n : ℕ) → IsDistinct ps → All (λ (p : ℕ). p < n) ps → count ps 0 n ≡ length ps
unfolding IsDistinct
count-All [] n distinct below = count_nil 0 n
count-All (p ∷ ps) n (new, distinct) (here, below) =
    count_more p ps 0 n new (omega arith) (omega arith) ∙ ap suc (count-All ps n distinct below)

missing_count :
    (c i : ℕ) (picks : List ℕ) (enc : List Bytes)
    → length (missing_ids c (view picks i enc)) + count picks i (length enc) ≡ length enc
unfolding missing_ids view count
missing_count c i picks [] = refl
missing_count c i picks (x ∷ enc) = elim (Bool-cases (member i picks)) [
  | inl e ↦ rw e (omega (arith, missing_count (c + 1) (i + 1) picks enc))
  | inr e ↦ rw e (omega (arith, missing_count (c + 1) (i + 1) picks enc))
]

-- With different devices picked, the others are erased.
pub length-missing_ids :
    (c : ℕ) (picks : List ℕ) (enc : List Bytes)
    → IsDistinct picks
    → All (λ (p : ℕ). p < length enc) picks
    → length (missing_ids c (view picks 0 enc)) + length picks ≡ length enc
length-missing_ids c picks enc distinct below =
    omega (arith, missing_count c 0 picks enc, count-All picks (length enc) distinct below)
