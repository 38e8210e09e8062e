-- ===== src/Pipeline/Finish.antt =====
-- shard.cpp: the loop of `shard_file` that puts the shares of the key before the shards and masks
-- them.
use native.Mathlib.Decide.{dec_lt}
use race_slothy.Common.{
  ℕ, zero, suc, ◌+◌, ◌^◌, ◌<◌, ◌≤◌, ◌≡◌, refl, ◌∙◌, some, List, [], ◌++◌, arith, Bytes, length,
  get_or, Malloc,
}
use race_slothy.Header.{Sha256}
use race_slothy.Header.RoundTrip.{randomized, randomize_header-mask}
use race_slothy.Shards.Files.{Store, look_up, put, shard_name}
use race_slothy.Shards.Files.Names.{look_up-put, look_up-put_other, names_differ}
use race_slothy.Pipeline.{done, mask_shard, finish_shards}

module _ (sha : Sha256) (heap : Malloc) (shard_prefix : Bytes) (total : ℕ) (shares : List Bytes)
    (files pre : ℕ → Bytes) (few : total < 256) where
  -- A shard with the share of the key, and what is stored of it.
  abbrev pub with_share : ℕ → Bytes
  with_share q = get_or shares q [] ++ files q

  abbrev pub masked : ℕ → Bytes
  masked q = randomized sha heap (pre q) (with_share q)

  abbrev pub Holds : Store → (ℕ → Bytes) → ℕ → Type 0
  Holds store content q = look_up store (shard_name shard_prefix q) ≡ some (content q)

  mask_stores :
      (i : ℕ) (store : Store)
      → length (pre i) ≡ 32
      → 32 ≤ length (with_share i)
      → length (with_share i) + 32 < 2 ^ 31
      → let name = shard_name shard_prefix i in
        mask_shard sha heap store name (with_share i) (some (pre i))
        ≡ some (put (put store name (with_share i)) name (masked i))
  unfolding mask_shard randomized
  mask_stores i store size long small =
      rw (mask_shard, randomize_header-mask sha heap (pre i) (with_share i) size long small) refl

  -- The other shards are not touched.
  others_kept :
      (i q : ℕ) (store : Store)
      → ¬ (i ≡ q)
      → i < total
      → q < total
      → let name = shard_name shard_prefix i in
        look_up (put (put store name (with_share i)) name (masked i)) (shard_name shard_prefix q)
        ≡ look_up store (shard_name shard_prefix q)
  others_kept i q store other below below_q =
      let name = shard_name shard_prefix i in
      let apart = names_differ shard_prefix i q other (omega arith) (omega arith) in
      look_up-put_other (put store name (with_share i)) name (shard_name shard_prefix q) (masked i)
        apart
      ∙ look_up-put_other store name (shard_name shard_prefix q) (with_share i) apart

  stored_before :
      (i q : ℕ) (store : Store)
      → i < total
      → ((r : ℕ) → r < i → Holds store masked r)
      → q < i + 1
      → let name = shard_name shard_prefix i in
        Holds (put (put store name (with_share i)) name (masked i)) masked q
  stored_before i q store inside before below =
      let name = shard_name shard_prefix i in
      elim (dec_lt q i) [
        | yes earlier ↦
            others_kept i q store (λ same. omega arith) inside (omega arith) ∙ before q earlier
        | no late ↦
            let same : q ≡ i = omega arith in
            rw same (look_up-put (put store name (with_share i)) name (masked i))
      ]

  -- From shard `i` on, the shards are replaced by the masked ones.
  pub finish_shards-Holds :
      (n i : ℕ) (store : Store)
      → i + n ≡ total
      → ((q : ℕ) → q < total → length (pre q) ≡ 32)
      → ((q : ℕ) → q < total → (32 ≤ length (with_share q)) × (length (with_share q) + 32 < 2 ^ 31))
      → ((q : ℕ) → q < i → Holds store masked q)
      → ((q : ℕ) → i ≤ q → q < total → Holds store files q)
      → (store' : Store) × (finish_shards sha heap n i shares (λ q. some (pre q)) shard_prefix store
          ≡ done store')
        × ((q : ℕ) → q < total → Holds store' masked q)
  unfolding finish_shards
  finish_shards-Holds zero i store e pres sizes before after =
      (store, refl, λ q below. before q (omega arith))
  finish_shards-Holds (suc n) i store e pres sizes before after =
      let name = shard_name shard_prefix i in
      let inside : i < total = omega arith in
      let store' = put (put store name (with_share i)) name (masked i) in
      let (result, eq, holds) =
        finish_shards-Holds n (i + 1) store' (omega arith) pres sizes
          (λ q below. stored_before i q store inside before below)
          (λ q low below.
            others_kept i q store (λ same. omega arith) inside below
            ∙ after q (omega arith) below) in
      (
        result,
        rw
            (
              finish_shards,
              after i (omega arith) inside,
              mask_stores i store (pres i inside) (sizes i inside).0 (sizes i inside).1,
            )
            eq,
        holds,
      )
