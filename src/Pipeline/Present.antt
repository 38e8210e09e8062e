-- ===== src/Pipeline/Present.antt =====
-- shard.cpp: which of the shards `unshard_file` finds on the disk.
use race_slothy.Common.{
  ℕ, zero, suc, ◌+◌, ◌-◌, ◌≤◌, ◌<◌, ◌≡◌, refl, ap, ◌⊎◌, inl, inr, false, Option, none, some, List,
  [], ◌∷◌, arith, Bytes, length, All, map, member,
}
use race_slothy.Shards.Files.{Store, look_up, shard_name}
use race_slothy.Shards.Unshard.Count.{IsDistinct}
use race_slothy.Shards.Unshard.Chosen.{chosen, chosen_names}
use race_slothy.Pipeline.{open_shards}

-- The numbers of the shards that are there, of the `n` from `i` on.
unfoldable pub present : ℕ → ℕ → Bytes → Store → List ℕ
present zero i shard_prefix store = []
present (suc n) i shard_prefix store =
    let rest = present n (i + 1) shard_prefix store in
    elim (look_up store (shard_name shard_prefix i)) [ none ↦ rest | some file ↦ i ∷ rest ]

-- The name of a shard that is counted from 1.
abbrev pub name_of : Bytes → ℕ → Bytes
name_of shard_prefix i = shard_name shard_prefix (i - 1)

pub name_of_next :
    (shard_prefix : Bytes) (q : ℕ) → name_of shard_prefix (q + 1) ≡ shard_name shard_prefix q
name_of_next shard_prefix q =
    let back : q + 1 - 1 ≡ q = omega arith in ap (λ (k : ℕ). shard_name shard_prefix k) back

pub chosen_names-map :
    (shard_prefix : Bytes) (picks : List ℕ)
    → chosen_names (name_of shard_prefix) picks ≡ map (shard_name shard_prefix) picks
unfolding chosen_names
chosen_names-map shard_prefix [] = refl
chosen_names-map shard_prefix (q ∷ picks) =
    rw (name_of_next shard_prefix q, chosen_names-map shard_prefix picks) refl

found_or_not : (o : Option Bytes) → (o ≡ none) ⊎ ((file : Bytes) × (o ≡ some file))
found_or_not none = inl refl
found_or_not (some file) = inr (file, refl)

new_below : (i : ℕ) (picks : List ℕ) → All (λ (q : ℕ). i < q) picks → member i picks ≡ false
unfolding member
new_below i [] h = refl
new_below i (q ∷ picks) (here, h) = ground (arith, new_below i picks h)

weaken :
    (a b c d : ℕ) (picks : List ℕ)
    → a ≤ b
    → c ≤ d
    → All (λ (q : ℕ). (b ≤ q) × (q < c)) picks
    → All (λ (q : ℕ). (a ≤ q) × (q < d)) picks
weaken a b c d [] h k all = tt
weaken a b c d (q ∷ picks) h k ((low, high), all) =
    ((omega arith, omega arith), weaken a b c d picks h k all)

lower :
    (i d : ℕ) (picks : List ℕ)
    → All (λ (q : ℕ). (i + 1 ≤ q) × (q < d)) picks
    → All (λ (q : ℕ). i < q) picks
lower i d [] all = tt
lower i d (q ∷ picks) ((low, high), all) = (omega arith, lower i d picks all)

upper :
    (n : ℕ) (picks : List ℕ)
    → All (λ (q : ℕ). (0 ≤ q) × (q < 0 + n)) picks
    → All (λ (q : ℕ). q < n) picks
upper n [] all = tt
upper n (q ∷ picks) ((low, high), all) = (omega arith, upper n picks all)

module _ (shard_prefix : Bytes) (store : Store) where
  present_from : (n i : ℕ) → All (λ (q : ℕ). (i ≤ q) × (q < i + n)) (present n i shard_prefix store)
  unfolding present
  present_from zero i = tt
  present_from (suc n) i =
      let rest =
        weaken i (i + 1) (i + 1 + n) (i + suc n) (present n (i + 1) shard_prefix store)
          (omega arith) (omega arith) (present_from n (i + 1)) in
      elim (found_or_not (look_up store (shard_name shard_prefix i))) [
        | inl gone ↦ rw (All, gone) rest
        | inr (file, there) ↦ rw (All, there) ((omega arith, omega arith), rest)
      ]

  pub present_below : (n : ℕ) → All (λ (q : ℕ). q < n) (present n 0 shard_prefix store)
  present_below n = upper n (present n 0 shard_prefix store) (present_from n 0)

  pub present-IsDistinct : (n i : ℕ) → IsDistinct (present n i shard_prefix store)
  unfolding present IsDistinct
  present-IsDistinct zero i = tt
  present-IsDistinct (suc n) i =
      let others = present n (i + 1) shard_prefix store in
      elim (found_or_not (look_up store (shard_name shard_prefix i))) [
        | inl gone ↦ rw (IsDistinct, gone) (present-IsDistinct n (i + 1))
        | inr (file, there) ↦
            rw (IsDistinct, there)
              (
                new_below i others (lower i (i + 1 + n) others (present_from n (i + 1))),
                present-IsDistinct n (i + 1),
              )
      ]

  -- If all are there, none is missing.
  pub length-present :
      (n i : ℕ) (content : ℕ → Bytes)
      → ((q : ℕ) → i ≤ q → q < i + n → look_up store (shard_name shard_prefix q) ≡ some (content q))
      → length (present n i shard_prefix store) ≡ n
  unfolding present
  length-present zero i content h = refl
  length-present (suc n) i content h =
      rw (length, h i (omega arith) (omega arith))
        (ap suc (length-present n (i + 1) content (λ q low high. h q (omega arith) (omega arith))))

  -- If each shard that is there holds `content`, these are opened.
  pub open_shards-chosen :
      (n i : ℕ) (content : ℕ → Bytes)
      → ((q : ℕ)
          → i ≤ q
          → q < i + n
          → (look_up store (shard_name shard_prefix q) ≡ none)
            ⊎ (look_up store (shard_name shard_prefix q) ≡ some (content q)))
      → open_shards n i shard_prefix store
        ≡ chosen (name_of shard_prefix) content (present n i shard_prefix store)
  unfolding open_shards present chosen
  open_shards-chosen zero i content h = refl
  open_shards-chosen (suc n) i content h =
      let rest =
        open_shards-chosen n (i + 1) content (λ q low high. h q (omega arith) (omega arith)) in
      elim (h i (omega arith) (omega arith)) [
        | inl gone ↦ rw (open_shards, present, gone) rest
        | inr there ↦
            rw (open_shards, present, chosen, there) (rw (rest, name_of_next shard_prefix i) refl)
      ]
