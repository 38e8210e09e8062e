-- ===== src/Shards/Unshard/Body.antt =====
-- rs_shard.cpp: the second part of `rs_unshard_fd` on some of the files that `rs_shard_fd` writes.
use native.Mathlib.Nat.{mul-div_cancel_left}
use race_slothy.Common.{
  ℕ, zero, suc, ◌+◌, ◌-◌, ◌*◌, ◌/◌, ◌^◌, ◌≤◌, ◌<◌, ◌≡◌, refl, ap, ◌∙◌, sym, true, false, some, List,
  [], ◌∷◌, ◌++◌, arith, Bytes, IsByte, All, All-append, All-take, All-drop, ◌==◌, All-get_or,
  length, length-append, length-replicate, replicate, get_or, get_or-replicate, drop, append_assoc,
  append-nil, take_left, Malloc, ftruncate,
}
use race_slothy.Shards.{Md5, Jerasure, IsBlocks}
use race_slothy.Shards.Meta.{Plan, plan, meta_text}
use race_slothy.Shards.Write.{rs_word_size, slices}
use race_slothy.Shards.Write.Files.{digests}
use race_slothy.Shards.Write.Slices.{flatten-slices, slices-IsBlocks}
use race_slothy.Shards.Write.Layout.{coded, sizes, length-block, body_size}
use race_slothy.Shards.Validate.{Vars, fread_into, shard_index, validate_shards}
use race_slothy.Shards.Validate.Genuine.{meta_front}
use race_slothy.Shards.Validate.Accepts.{
  FirstColumnOnes, text_size, body_blocks, table_size, written,
}
use race_slothy.Shards.Unshard.{
  Decoder, decode_phase, decoded, assemble, Output, overwrite, device_size, recovered, resize,
  unshard_body,
}
use race_slothy.Shards.Unshard.Gather.{AreShown}
use race_slothy.Shards.Unshard.Count.{IsDistinct}
use race_slothy.Shards.Unshard.Restore.{decode_phase-restores, assemble-flatten}
use race_slothy.Shards.Unshard.Chosen.{
  chosen, chosen_names, remove_all-chosen, AreShown-chosen, get-layout,
}
use race_slothy.Shards.Unshard.Passes.{share, share_index, validate_shards-chosen}
use race_slothy.Shards.Unshard.Metadata.{plan_numbers, meta_of_share, body_of_share}

All-slices :
    (n i b : ℕ) (xs : Bytes) → All IsByte xs → All (λ (d : Bytes). All IsByte d) (slices n i b xs)
unfolding slices
All-slices zero i b xs h = tt
All-slices (suc n) i b xs h = (
  All-take IsByte b (drop (i * b) xs) (All-drop IsByte (i * b) xs h),
  All-slices n (i + 1) b xs h,
)

coded_at :
    (j : Jerasure) (k m size : ℕ) (buf : Bytes)
    → 0 < k
    → length buf ≡ k * size
    → coded j k m buf ≡ j.encode k m 32 (j.vandermonde k m 32) (slices k 0 size buf) size
unfolding coded
coded_at j k m size buf h e =
    let exact : length buf / k ≡ size = rw e (mul-div_cancel_left size h) in rw (coded, exact) refl

-- Writing the padded file at the front of the output, and cutting it to the file's size.
overwrite_front :
    (file rest old : Bytes) → ftruncate (length file) (overwrite old 0 (file ++ rest)) ≡ file
unfolding ftruncate overwrite
overwrite_front file rest old =
    let behind = drop (0 + length (file ++ rest)) old in
    let all_there : length file - length ((file ++ rest) ++ behind) ≡ 0 =
      omega (arith, length-append (file ++ rest) behind, length-append file rest) in
    rw (all_there, append-nil, append_assoc file rest behind) (take_left file (rest ++ behind) refl)

module _ (md5 : Md5) (j : Jerasure) (dec : Decoder j) (heap : Malloc) (m : ℕ) (file : Bytes)
    (ones : FirstColumnOnes j) (shares : m < 2 ^ 16) (small : length file + 128 < 2 ^ 31)
    (file_bytes : All IsByte file) (heap_bytes : (n : ℕ) → All IsByte (heap.fresh n)) where
  abbrev pub p : Plan
  p = plan 8 (length file)

  abbrev pub block : Bytes
  block = file ++ drop (length file) (heap.fresh p.size)

  abbrev pub bodies : List Bytes
  bodies = coded j 8 m block

  pub front_text : length (meta_text p 8 m rs_word_size) ≤ 128
  front_text = text_size md5 j heap m file ones shares small

  pub body_count : length bodies ≡ m
  body_count = (body_blocks md5 j heap m file ones shares small).0

  pub body_sizes : All (λ (b : Bytes). length b ≡ p.blocksize) bodies
  body_sizes = (body_blocks md5 j heap m file ones shares small).1

  pub plan_facts :
      (p.size ≡ (length file + 127) / 128 * 128)
      × (8 * p.blocksize ≡ p.size)
      × (p.size - p.padding_size ≡ length file)
      × (p.buffersize ≡ p.size)
      × (p.readins ≡ 1)
  plan_facts = sizes md5 j heap 8 2 m file refl (omega arith) small

  block_size : length block ≡ 8 * p.blocksize
  block_size = length-block md5 j heap 8 2 m file refl (omega arith) small

  abbrev blocks : List Bytes
  blocks = slices 8 0 p.blocksize block

  blocks-IsBlocks : IsBlocks 8 p.blocksize blocks
  blocks-IsBlocks =
      slices-IsBlocks 8 p.blocksize block block_size
        (body_size md5 j heap 8 2 m file refl (omega arith) small)

  blocks_bytes : All (λ (b : Bytes). All IsByte b) blocks
  blocks_bytes = All-slices 8 0 p.blocksize block (
      All-append IsByte file (drop (length file) (heap.fresh p.size)) file_bytes
        (All-drop IsByte (length file) (heap.fresh p.size) (heap_bytes p.size)))

  module _ (names : ℕ → Bytes) where
    -- The file that `rs_shard_fd` writes for share `q`, counted from 0.
    abbrev pub share_file : ℕ → Bytes
    share_file =
        share md5 p m bodies names plan_facts.4 front_text
          (table_size md5 j heap m file ones shares small) shares body_count body_sizes

    pub file_index : (q : ℕ) → q < m → shard_index (share_file q) ≡ q + 1
    file_index =
        share_index md5 p m bodies names plan_facts.4 front_text
          (table_size md5 j heap m file ones shares small) shares body_count body_sizes

    pub chosen-written :
        (picks : List ℕ)
        → All (λ (q : ℕ). q < m) picks
        → chosen names (λ q. get_or (written md5 j heap m file ones shares small) q []) picks
          ≡ chosen names share_file picks
    unfolding chosen
    chosen-written [] below = refl
    chosen-written (q ∷ picks) (here, below) =
        let same = get-layout (meta_front p m) m 1 q bodies (digests md5 bodies) body_count here in
        let swap : 1 + q ≡ q + 1 = omega arith in rw (same, swap, chosen-written picks below) refl

    pub first_shown :
        (picks : List ℕ)
        → All (λ (q : ℕ). q < m) picks
        → AreShown 2 128 (chosen names share_file picks) picks 0 (replicate m (meta_front p m))
    first_shown picks below =
        let number = length-replicate m (meta_front p m) in
        AreShown-chosen names share_file m file_index 2 128 0 picks (replicate m (meta_front p m))
          below (omega (arith, number))
          (λ q l.
            let same : 0 + q ≡ q = omega arith in
            ap (λ (i : ℕ). fread_into 128 (drop 2 (share_file i)) (replicate 128 0)) same
            ∙ meta_of_share j dec p m ones shares front_text (q + 1)
                (get_or bodies q [] ++ digests md5 bodies)
            ∙ sym (get_or-replicate m q (meta_front p m) [] (omega (arith, number))))

    second_shown :
        (picks : List ℕ)
        → All (λ (q : ℕ). q < m) picks
        → AreShown 130 p.blocksize (chosen names share_file picks) picks 0 bodies
    second_shown picks below =
        AreShown-chosen names share_file m file_index 130 p.blocksize 0 picks bodies below
          (omega (arith, body_count))
          (λ q l.
            let same : 0 + q ≡ q = omega arith in
            ap
              (λ (i : ℕ).
                fread_into p.blocksize (drop 130 (share_file i)) (replicate p.blocksize 0))
              same
            ∙ body_of_share j dec p m ones shares front_text (q + 1) (get_or bodies q [])
                (digests md5 bodies)
                (All-get_or (λ (b : Bytes). length b ≡ p.blocksize) bodies q [] body_sizes l))

    body_decoded :
        (picks : List ℕ)
        → IsDistinct picks
        → All (λ (q : ℕ). q < m) picks
        → 8 ≤ length picks
        → decode_phase j dec 8 m 32 130 p.blocksize (chosen names share_file picks) ≡ decoded blocks
    body_decoded picks distinct below enough =
        decode_phase-restores j dec 8 m 130 p.blocksize (chosen names share_file picks) picks blocks
          (omega arith) (omega arith) blocks-IsBlocks blocks_bytes distinct below enough
          (rw (← coded_at j 8 m p.blocksize block (omega arith) block_size)
            (second_shown picks below))

    pub body_recovered :
        (picks : List ℕ) (out : Output)
        → IsDistinct picks
        → All (λ (q : ℕ). q < m) picks
        → 8 ≤ length picks
        → out.at ≡ 0
        → unshard_body j dec 128 (chosen names share_file picks) [] (plan_numbers p m) out
          ≡ recovered file (chosen_names names picks)
    unfolding unshard_body device_size resize
    body_recovered picks out distinct below enough at_start =
        let same_size : (p.buffersize == p.size) ≡ true = ground (arith, plan_facts) in
        let some_round : (p.readins == 0) ≡ false = ground (arith, plan_facts) in
        let one_round : (p.readins == 1) ≡ true = ground (arith, plan_facts) in
        let whole : assemble p.size p.blocksize 0 blocks ≡ block =
          assemble-flatten p.size p.blocksize 0 blocks blocks-IsBlocks.1
            (omega (arith, ap (λ (n : ℕ). n * p.blocksize) blocks-IsBlocks.0, plan_facts))
          ∙ flatten-slices 8 p.blocksize block block_size in
        rw
          (
            unshard_body,
            some_round,
            same_size,
            remove_all-chosen names share_file picks,
            body_decoded picks distinct below enough,
          )
          (rw (one_round, whole, at_start, plan_facts.2)
            (ap (λ (t : Bytes). recovered t (chosen_names names picks))
              (overwrite_front file (drop (length file) (heap.fresh p.size)) out.old)))

    pub validated :
        (picks : List ℕ) (garbage : Bytes) (vars : Vars)
        → All (λ (q : ℕ). q < m) picks
        → 0 < length picks
        → let fds = chosen names share_file picks in
          validate_shards md5 fds m garbage vars
          ≡ some (record { fds = fds; num_good = length picks; gone = [] })
    validated =
        validate_shards-chosen md5 p m bodies names plan_facts.4 front_text
          (table_size md5 j heap m file ones shares small) shares body_count body_sizes
