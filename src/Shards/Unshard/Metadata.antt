-- ===== src/Shards/Unshard/Metadata.antt =====
-- rs_shard.cpp: the metadata that `rs_unshard_fd` decodes from some of the shards.
use race_slothy.Common.{
  ℕ, ◌-◌, ◌^◌, ◌≤◌, ◌<◌, ◌≡◌, refl, ◌∙◌, sym, some, List, [], ◌∷◌, ◌++◌, arith, Bytes, IsByte, All,
  All-append, All-replicate, length, length-append, length-replicate, replicate, drop, drop_left,
  print_nat, print_nat_bytes, append_assoc, pos,
}
use race_slothy.Shards.{Jerasure}
use race_slothy.Shards.Meta.{Plan, meta_text, scan_meta, Meta}
use race_slothy.Shards.Meta.RoundTrip.{scan_meta-text}
use race_slothy.Shards.Write.{index_bytes, rs_word_size}
use race_slothy.Shards.Validate.{Slot, fread_into}
use race_slothy.Shards.Validate.Genuine.{meta_front, fread_exact}
use race_slothy.Shards.Validate.Accepts.{FirstColumnOnes, meta_blocks}
use race_slothy.Shards.Unshard.{
  Decoder, decode_phase, decoded, assemble, meta_buffer, natural, rounds, sizes_of, Sizes,
}
use race_slothy.Shards.Unshard.Gather.{AreShown}
use race_slothy.Shards.Unshard.Count.{IsDistinct}
use race_slothy.Shards.Unshard.Restore.{decode_phase-restores, assemble-flatten}

separated :
    (a : ℕ) (c : ℕ) (rest : Bytes)
    → IsByte c
    → All IsByte rest
    → All IsByte (print_nat a ++ c ∷ rest)
separated a c rest h k = All-append IsByte (print_nat a) (c ∷ rest) (print_nat_bytes a) (h, k)

meta_text_bytes : (p : Plan) (k m w : ℕ) → All IsByte (meta_text p k m w)
unfolding meta_text
meta_text_bytes p k m w =
    let blank : IsByte 32 = omega arith in
    let newline : IsByte 10 = omega arith in
    separated p.size 32 _ blank (
      separated p.blocksize 32 _ blank (
        separated (p.size - p.padding_size) 10 _ newline (
          separated k 32 _ blank (
            separated m 32 _ blank (
              separated w 32 _ blank
                (separated p.buffersize 10 _ newline (separated p.readins 10 [] newline tt)))))))

-- The numbers of a plan.
abbrev pub plan_numbers : Plan → ℕ → Sizes
plan_numbers p m = record {
  origsize = p.size;
  blocksize = p.blocksize;
  pre_padded = pos (p.size - p.padding_size);
  k = 8;
  m = m;
  w = rs_word_size;
  buffersize = p.buffersize;
  readins = p.readins;
}

module _ (j : Jerasure) (dec : Decoder j) (p : Plan) (m : ℕ) (ones : FirstColumnOnes j)
    (shares : m < 2 ^ 16) (text_size : length (meta_text p 8 m rs_word_size) ≤ 128) where
  abbrev text : Bytes
  text = meta_text p 8 m rs_word_size

  -- The data devices of the padded metadata.
  abbrev pub meta_devices : List Bytes
  meta_devices = meta_front p m ∷ replicate 7 (replicate 128 0)

  front_size : length (meta_front p m) ≡ 128
  front_size = omega (
    arith,
    length-append text (replicate (128 - length text) 0),
    length-replicate {A = ℕ} (128 - length text) 0,
  )

  device_sizes : All (λ (b : Bytes). length b ≡ 128) meta_devices
  device_sizes =
      (front_size, All-replicate (λ (b : Bytes). length b ≡ 128) 7 (replicate 128 0) refl)

  zero-IsByte : IsByte 0
  zero-IsByte = omega arith

  device_bytes : All (λ (b : Bytes). All IsByte b) meta_devices
  device_bytes = (
    All-append IsByte text (replicate (128 - length text) 0) (meta_text_bytes p 8 m rs_word_size)
        (All-replicate IsByte (128 - length text) 0 zero-IsByte),
    All-replicate (λ (b : Bytes). All IsByte b) 7 (replicate 128 0)
        (All-replicate IsByte 128 0 zero-IsByte),
  )

  -- Behind the index of a shard stands the metadata.
  pub meta_of_share :
      (i : ℕ) (rest : Bytes)
      → fread_into 128 (drop 2 (index_bytes i ++ (meta_front p m ++ rest))) (replicate 128 0)
        ≡ meta_front p m
  unfolding index_bytes
  meta_of_share i rest = fread_exact 128 (meta_front p m) rest (replicate 128 0) front_size refl

  -- Behind the metadata stands the body.
  pub body_of_share :
      (i : ℕ) (b rest : Bytes)
      → length b ≡ p.blocksize
      → fread_into p.blocksize
          (drop 130 (index_bytes i ++ (meta_front p m ++ (b ++ rest))))
          (replicate p.blocksize 0)
        ≡ b
  unfolding index_bytes
  body_of_share i b rest size = rw (drop_left (meta_front p m) (b ++ rest) front_size) (
      fread_exact p.blocksize b rest (replicate p.blocksize 0) size
        (length-replicate {A = ℕ} p.blocksize 0))

  pub metadata_decoded :
      (fds : List Slot) (picks : List ℕ)
      → IsDistinct picks
      → All (λ (q : ℕ). q < m) picks
      → 8 ≤ length picks
      → AreShown 2 128 fds picks 0 (replicate m (meta_front p m))
      → decode_phase j dec 8 m 32 2 128 fds ≡ decoded meta_devices
  metadata_decoded fds picks distinct below enough shown =
      let all_same = ones 8 m 128 (meta_front p m) (omega arith) (omega arith) front_size refl in
      decode_phase-restores j dec 8 m 2 128 fds picks meta_devices (omega arith) (omega arith)
        (refl, device_sizes, refl) device_bytes distinct below enough (rw all_same shown)

  -- The numbers of the plan are read from it.
  pub metadata_read :
      (vars : Meta)
      → sizes_of (scan_meta (meta_buffer j dec 128 meta_devices) vars) ≡ some (plan_numbers p m)
  unfolding sizes_of natural rounds meta_buffer
  metadata_read vars =
      let padding : Bytes = replicate (1024 - length text) 0 in
      let whole : assemble 1024 128 0 meta_devices ≡ text ++ padding =
        assemble-flatten 1024 128 0 meta_devices device_sizes (omega arith)
        ∙ sym (meta_blocks text text_size) in
      let rest : Bytes = replicate (1024 - length (text ++ padding)) 0 in
      rw
        (
          meta_buffer,
          whole,
          append_assoc text padding rest,
          scan_meta-text p 8 m rs_word_size (padding ++ rest) vars,
        )
        refl
