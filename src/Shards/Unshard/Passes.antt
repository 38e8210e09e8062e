-- ===== src/Shards/Unshard/Passes.antt =====
-- rs_shard.cpp: `validate_shards` on some of the files that `rs_shard_fd` writes.
use race_slothy.Common.{
  ℕ, ◌+◌, ◌*◌, ◌^◌, ◌≤◌, ◌<◌, ◌≡◌, refl, ap, ◌∙◌, some, List, [], ◌∷◌, ◌++◌, arith, Bytes, ltb,
  if◌then◌else◌, length, All, All-get_or, get_or,
}
use race_slothy.Shards.{Md5}
use race_slothy.Shards.Meta.{Plan, meta_text}
use race_slothy.Shards.Write.{index_bytes, rs_word_size}
use race_slothy.Shards.Write.Files.{digests}
use race_slothy.Shards.Validate.{
  Vars, last_bytes, shard_index, sort_files, validate_shards, true_hash_val, removed,
}
use race_slothy.Shards.Validate.Vote.{last_table, true_hash_val-last}
use race_slothy.Shards.Validate.Genuine.{
  meta_front, genuine_index, genuine_passes, genuine_long, takes_table,
}
use race_slothy.Shards.Unshard.Chosen.{chosen, length-chosen, digests-split}

module _ (md5 : Md5) (p : Plan) (m : ℕ) (bodies : List Bytes) (names : ℕ → Bytes)
    (once : p.readins ≡ 1) (text_size : length (meta_text p 8 m rs_word_size) ≤ 128)
    (table : length (digests md5 bodies) ≡ 16 * m) (shares : m < 2 ^ 16) (count : length bodies ≡ m)
    (bodies_size : All (λ (b : Bytes). length b ≡ p.blocksize) bodies) where
  abbrev trusted : Bytes
  trusted = digests md5 bodies

  -- The file of share `q`, counted from 0.
  abbrev pub share : ℕ → Bytes
  share q = index_bytes (q + 1) ++ (meta_front p m ++ (get_or bodies q [] ++ trusted))

  pub share_index : (q : ℕ) → q < m → shard_index (share q) ≡ q + 1
  share_index q below =
      genuine_index md5 p m trusted names once text_size table shares (q + 1) (get_or bodies q [])
        (omega arith)

  sort_chosen :
      (picks : List ℕ) (v : Vars)
      → All (λ (q : ℕ). q < m) picks
      → let fds = chosen names share picks in sort_files md5 m trusted fds v ≡ some (fds, [])
  unfolding sort_files chosen
  sort_chosen [] v below = refl
  sort_chosen (q ∷ picks) v (here, below) =
      let b = get_or bodies q [] in
      let (before, after, k, e) = digests-split md5 bodies q (omega arith) in
      let size =
        All-get_or (λ (b : Bytes). length b ≡ p.blocksize) bodies q [] bodies_size (omega arith) in
      let (v', passes) =
        genuine_passes md5 p m trusted names once text_size table shares q before after b v here
          size k e in
      let long_enough = genuine_long md5 p m trusted names once text_size table shares (q + 1) b in
      rw (long_enough, passes, sort_chosen picks v' below) refl

  same_table :
      (q : ℕ) (held : Bytes)
      → (if ltb (length (share q)) (16 * m) then held else last_bytes (16 * m) (share q)) ≡ trusted
  same_table q held =
      takes_table md5 p m trusted names once text_size table shares (q + 1) (get_or bodies q [])
        held

  last_same : (picks : List ℕ) → last_table (16 * m) (chosen names share picks) trusted ≡ trusted
  unfolding last_table chosen
  last_same [] = refl
  last_same (q ∷ picks) =
      ap (λ (t : Bytes). last_table (16 * m) (chosen names share picks) t) (same_table q trusted)
      ∙ last_same picks

  last_chosen :
      (picks : List ℕ) (garbage : Bytes)
      → 0 < length picks
      → last_table (16 * m) (chosen names share picks) garbage ≡ trusted
  unfolding last_table chosen
  last_chosen [] garbage h = absurd (omega arith)
  last_chosen (q ∷ picks) garbage h =
      ap (λ (t : Bytes). last_table (16 * m) (chosen names share picks) t) (same_table q garbage)
      ∙ last_same picks

  -- One or more of the shards, in any order: all are good.
  pub validate_shards-chosen :
      (picks : List ℕ) (garbage : Bytes) (vars : Vars)
      → All (λ (q : ℕ). q < m) picks
      → 0 < length picks
      → let fds = chosen names share picks in
        validate_shards md5 fds m garbage vars
        ≡ some (record { fds = fds; num_good = length picks; gone = [] })
  unfolding validate_shards removed
  validate_shards-chosen picks garbage vars below some_pick =
      let fds = chosen names share picks in
      let voted : true_hash_val (16 * m) fds garbage ≡ trusted =
        true_hash_val-last (16 * m) fds garbage ∙ last_chosen picks garbage some_pick in
      rw (validate_shards, voted, sort_chosen picks vars below, length-chosen names share picks)
        refl
