-- ===== src/Shards/Unshard/Recover.antt =====
-- rs_shard.cpp: `rs_unshard_fd` on some of the files that `rs_shard_fd` writes.
use race_slothy.Common.{
  ℕ, zero, suc, ◌+◌, ◌-◌, ◌*◌, ◌^◌, ◌≤◌, ◌<◌, ◌≡◌, refl, ap, ◌∙◌, true, false, some, List, [], ◌∷◌,
  ◌++◌, arith, Bytes, IsByte, All, ltb, All-get_or, length, length-append, length-replicate,
  replicate, get_or, take, take_all, ℤ, Malloc,
}
use race_slothy.Shards.{Md5, Jerasure}
use race_slothy.Shards.Meta.{Plan, meta_text}
use race_slothy.Shards.Write.{index_bytes, rs_word_size, rs_shard_fd, shards}
use race_slothy.Shards.Write.Files.{layout, digests}
use race_slothy.Shards.Validate.{Vars, removed}
use race_slothy.Shards.Validate.Genuine.{meta_front}
use race_slothy.Shards.Validate.Accepts.{FirstColumnOnes, table_size, writes, written}
use race_slothy.Shards.Unshard.{Decoder, Output, recovered, failed, unshard_good, rs_unshard_fd}
use race_slothy.Shards.Unshard.Count.{IsDistinct}
use race_slothy.Shards.Unshard.Chosen.{chosen, chosen_names, length-chosen, get-layout}
use race_slothy.Shards.Unshard.Body.{
  p, bodies, front_text, body_count, body_sizes, plan_facts, share_file, chosen-written,
  first_shown, body_recovered, validated,
}
use race_slothy.Shards.Unshard.Metadata.{metadata_decoded, metadata_read}

-- How many files there are.
layout_count :
    (metas bodies : List Bytes) (i n : ℕ) (hashes : Bytes)
    → length metas ≡ n
    → length bodies ≡ n
    → length (layout metas bodies i hashes) ≡ n
unfolding layout
layout_count [] bodies i n hashes h k = h
layout_count (a ∷ metas) [] i n hashes h k = absurd (omega arith)
layout_count (a ∷ metas) (b ∷ bodies) i zero hashes h k = absurd (omega arith)
layout_count (a ∷ metas) (b ∷ bodies) i (suc n) hashes h k =
    ap suc (layout_count metas bodies (i + 1) n hashes (omega arith) (omega arith))

module _ (md5 : Md5) (j : Jerasure) (dec : Decoder j) (heap : Malloc) (m : ℕ) (file : Bytes)
    (ones : FirstColumnOnes j) (shares : m < 2 ^ 16) (small : length file + 128 < 2 ^ 31)
    (file_bytes : All IsByte file) (heap_bytes : (n : ℕ) → All IsByte (heap.fresh n))
    (names : ℕ → Bytes) where
  -- The files that `rs_shard_fd` writes.
  abbrev pub output : List Bytes
  output = written md5 j heap m file ones shares small

  abbrev pub plan_of : Plan
  plan_of = p md5 j dec heap m file ones shares small file_bytes heap_bytes

  abbrev pub body_of : List Bytes
  body_of = bodies md5 j dec heap m file ones shares small file_bytes heap_bytes

  abbrev pub nth_file : ℕ → Bytes
  nth_file = share_file md5 j dec heap m file ones shares small file_bytes heap_bytes names

  pub length-output : length output ≡ m
  length-output =
      layout_count (replicate m (meta_front plan_of m)) body_of 1 m (digests md5 body_of)
        (length-replicate m (meta_front plan_of m))
        (body_count md5 j dec heap m file ones shares small file_bytes heap_bytes)

  pub length-output_file :
      (q : ℕ) → q < m → length (get_or output q []) ≡ 130 + plan_of.blocksize + 16 * m
  unfolding index_bytes
  length-output_file q below =
      let text = meta_text plan_of 8 m rs_word_size in
      let front = meta_front plan_of m in
      let b = get_or body_of q [] in
      let table = digests md5 body_of in
      let count = body_count md5 j dec heap m file ones shares small file_bytes heap_bytes in
      let size : length b ≡ plan_of.blocksize =
        All-get_or (λ (b : Bytes). length b ≡ plan_of.blocksize) body_of q []
          (body_sizes md5 j dec heap m file ones shares small file_bytes heap_bytes)
          (omega (arith, count)) in
      ap (λ (t : Bytes). length t) (get-layout front m 1 q body_of table count below)
      ∙ omega (
        arith,
        front_text md5 j dec heap m file ones shares small file_bytes heap_bytes,
        length-append text (replicate (128 - length text) 0),
        length-replicate {A = ℕ} (128 - length text) 0,
        length-append front (b ++ table),
        length-append b table,
        size,
        table_size md5 j heap m file ones shares small,
      )

  pub body_bound : 8 * plan_of.blocksize ≤ length file + 127
  body_bound =
      omega (arith, plan_facts md5 j dec heap m file ones shares small file_bytes heap_bytes)

  pub recovers :
      (picks : List ℕ) (garbage : Bytes) (vars : Vars) (pre_padded : ℤ) (out : Output)
      → IsDistinct picks
      → All (λ (q : ℕ). q < m) picks
      → 8 ≤ length picks
      → out.at ≡ 0
      → rs_unshard_fd j dec md5
          (chosen names (λ q. get_or output q []) picks)
          8
          m
          garbage
          vars
          pre_padded
          out
        ≡ recovered file (chosen_names names picks)
  unfolding rs_unshard_fd unshard_good
  recovers picks garbage vars pre_padded out distinct below enough at_start =
      let fds = chosen names nth_file picks in
      let good =
        validated md5 j dec heap m file ones shares small file_bytes heap_bytes names picks garbage
          vars below (omega arith) in
      let all : take (length picks) fds ≡ fds =
        take_all (length picks) fds (omega (arith, length-chosen names nth_file picks)) in
      let many : ltb (length picks) 8 ≡ false = ground arith in
      rw
        (
          chosen-written md5 j dec heap m file ones shares small file_bytes heap_bytes names picks
              below,
          rs_unshard_fd,
          good,
        )
        (rw
          (
            unshard_good,
            many,
            all,
            metadata_decoded j dec plan_of m ones shares
                (front_text md5 j dec heap m file ones shares small file_bytes heap_bytes) fds picks
                distinct below enough
                (first_shown md5 j dec heap m file ones shares small file_bytes heap_bytes names
                  picks below),
            metadata_read j dec plan_of m ones shares
                (front_text md5 j dec heap m file ones shares small file_bytes heap_bytes) _,
          )
          (rw all (
            body_recovered md5 j dec heap m file ones shares small file_bytes heap_bytes names picks
              out distinct below enough at_start)))

  -- With threshold 8, fewer than 2 ^ 16 shares, a file of fewer than 2 ^ 31 - 128 bytes, `malloc`
  -- whose blocks hold bytes, a coding matrix whose first column is all ones, and an output file at its
  -- start: `rs_shard_fd` writes files of which any eight or more different ones, in any order and
  -- whatever their names are, make `rs_unshard_fd` succeed. It leaves in the output file exactly the
  -- file that was sharded, whatever stood there and whatever its variables hold before, and removes
  -- the files that it was given.
  pub rs_unshard_fd-rs_shard_fd :
      (picks : List ℕ) (garbage : Bytes) (vars : Vars) (pre_padded : ℤ) (out : Output)
      → IsDistinct picks
      → All (λ (q : ℕ). q < m) picks
      → 8 ≤ length picks
      → out.at ≡ 0
      → (files : List Bytes) × (rs_shard_fd md5 j heap (some file) 8 m ≡ shards files)
        × (rs_unshard_fd j dec md5
              (chosen names (λ q. get_or files q []) picks)
              8
              m
              garbage
              vars
              pre_padded
              out
            ≡ recovered file (chosen_names names picks))
  rs_unshard_fd-rs_shard_fd picks garbage vars pre_padded out distinct below enough at_start = (
    output,
    writes md5 j heap m file ones shares small,
    recovers picks garbage vars pre_padded out distinct below enough at_start,
  )

  removed-chosen :
      (picks : List ℕ) → removed (chosen names nth_file picks) ≡ chosen_names names picks
  unfolding removed chosen chosen_names
  removed-chosen [] = refl
  removed-chosen (q ∷ picks) = rw (removed-chosen picks) refl

  -- With threshold 8, fewer than 2 ^ 16 shares, a file of fewer than 2 ^ 31 - 128 bytes, `malloc`
  -- whose blocks hold bytes, and a coding matrix whose first column is all ones: given at least one
  -- but fewer than eight of the files that `rs_shard_fd` writes, `rs_unshard_fd` returns -1, removes
  -- all of those files and leaves the output as it is.
  pub rs_unshard_fd-too_few :
      (picks : List ℕ) (garbage : Bytes) (vars : Vars) (pre_padded : ℤ) (out : Output)
      → All (λ (q : ℕ). q < m) picks
      → 0 < length picks
      → length picks < 8
      → (files : List Bytes) × (rs_shard_fd md5 j heap (some file) 8 m ≡ shards files)
        × (rs_unshard_fd j dec md5
              (chosen names (λ q. get_or files q []) picks)
              8
              m
              garbage
              vars
              pre_padded
              out
            ≡ failed out.old (chosen_names names picks))
  unfolding rs_unshard_fd unshard_good
  rs_unshard_fd-too_few picks garbage vars pre_padded out below some_pick few =
      let fds = chosen names nth_file picks in
      let good =
        validated md5 j dec heap m file ones shares small file_bytes heap_bytes names picks garbage
          vars below some_pick in
      let all : take (length picks) fds ≡ fds =
        take_all (length picks) fds (omega (arith, length-chosen names nth_file picks)) in
      let short : ltb (length picks) 8 ≡ true = ground arith in
      (
        output,
        writes md5 j heap m file ones shares small,
        rw
            (
              chosen-written md5 j dec heap m file ones shares small file_bytes heap_bytes names
                  picks below,
              rs_unshard_fd,
              good,
            )
            (rw (unshard_good, short) (rw (all, removed-chosen picks) refl)),
      )
