-- ===== src/Pipeline/Split.antt =====
-- shard.cpp: the loop of `unshard_fd` that unmasks the shards and takes the shares of the key off.
use race_slothy.Common.{
  ℕ, ◌<◌, ◌≤◌, ◌≡◌, refl, none, some, false, List, [], ◌∷◌, ◌++◌, arith, Bytes, length, get_or, map,
  Malloc, All, ltb, take_left, drop_left, length-append,
}
use race_slothy.Header.{Sha256}
use race_slothy.Header.RoundTrip.{randomized, unrandomize-randomized}
use race_slothy.Shards.Validate.{Slot, missing, unopened, shard}
use race_slothy.Shards.Unshard.Chosen.{chosen}
use race_slothy.Pipeline.{sss_share_len, split_shard, split_shards}

module _ (sha : Sha256) (heap : Malloc) (names : ℕ → Bytes) (total : ℕ) (shares : List Bytes)
    (files pre : ℕ → Bytes) (pres : (q : ℕ) → q < total → length (pre q) ≡ 32)
    (share_sizes : (q : ℕ) → q < total → length (get_or shares q []) ≡ sss_share_len) where
  abbrev with_share : ℕ → Bytes
  with_share q = get_or shares q [] ++ files q

  abbrev masked : ℕ → Bytes
  masked q = randomized sha heap (pre q) (with_share q)

  pub split_shards-chosen :
      (picks : List ℕ)
      → All (λ (q : ℕ). q < total) picks
      → split_shards sha heap (chosen names masked picks)
        ≡ some (chosen names files picks, map (λ q. get_or shares q []) picks)
  unfolding split_shards split_shard chosen
  split_shards-chosen [] below = refl
  split_shards-chosen (q ∷ picks) (here, below) =
      let share = get_or shares q [] in
      let size : length share ≡ 113 = share_sizes q here in
      let long : 32 ≤ length (with_share q) = omega (arith, length-append share (files q)) in
      let whole : ltb (length (with_share q)) 113 ≡ false =
        ground (arith, size, length-append share (files q)) in
      let unmasked = unrandomize-randomized sha heap (pre q) (with_share q) (pres q here) long in
      rw
        (
          split_shards-chosen picks below,
          unmasked,
          split_shard,
          whole,
          take_left share (files q) size,
          drop_left share (files q) size,
        )
        refl

-- A null pointer among the shards is followed, wherever it stands.
pub split_shards-missing :
    (sha : Sha256) (heap : Malloc) (before after : List Slot)
    → split_shards sha heap (before ++ missing ∷ after) ≡ none
unfolding split_shards
split_shards-missing sha heap [] after = refl
split_shards-missing sha heap (missing ∷ before) after = refl
split_shards-missing sha heap (unopened name ∷ before) after = refl
split_shards-missing sha heap (shard name file ∷ before) after =
    rw (split_shards-missing sha heap before after) refl
