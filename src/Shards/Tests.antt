-- ===== src/Shards/Tests.antt =====
-- The theorems on shards at concrete libraries and files.
use race_slothy.Common.{
  ℕ, zero, suc, ◌+◌, ◌^◌, ◌*◌, ◌/◌, ◌%◌, ◌<◌, ◌≤◌, ◌≡◌, refl, some, List, [], ◌∷◌, ◌++◌, arith,
  Bytes, codes, length, take, replicate, length-replicate, drop, Malloc, All, pos,
}
use race_slothy.Shards.{Md5, IsBlocks, Jerasure}
use race_slothy.Shards.Meta.{plan, Meta, meta_text, pad_meta, scan_meta}
use race_slothy.Shards.Meta.Page.{scan_meta-pad_meta}
use race_slothy.Shards.Write.{rs_shard_fd, shards, fault}
use race_slothy.Shards.Write.Files.{layout, digests}
use race_slothy.Shards.Write.Layout.{coded, padded_meta, rs_shard_fd-layout}
use race_slothy.Shards.Validate.{
  Slot, Validated, missing, unopened, removed, sort_files, shard, true_hash_val, Vars,
  validate_shards,
}
use race_slothy.Shards.Validate.Genuine.{named}
use race_slothy.Shards.Validate.Slots.{IsOpened, validate_shards_slots}
use race_slothy.Shards.Validate.Accepts.{FirstColumnOnes, validate_shards-rs_shard_fd}

abbrev sum_of : Bytes → ℕ
sum_of [] = 0
sum_of (x ∷ xs) = x + sum_of xs

abbrev pub toy_md5 : Md5
toy_md5 = record {
  Ctx = ℕ;
  init = 0;
  update = λ c input. c * 7 + sum_of input;
  final = λ c. replicate 16 (c % 256);
  length-final = λ c. length-replicate 16 (c % 256);
}

abbrev first_block : ℕ → List Bytes → Bytes
first_block size [] = replicate size 0
first_block size (b ∷ blocks) = b

same_blocks :
    (m size : ℕ) (b : Bytes)
    → length b ≡ size
    → All (λ (x : Bytes). length x ≡ size) (replicate m b)
same_blocks zero size b h = tt
same_blocks (suc m) size b h = (h, same_blocks m size b h)

pub copies-IsBlocks :
    (k m size : ℕ) (blocks : List Bytes)
    → 0 < k
    → k + m < 2 ^ 32
    → IsBlocks k size blocks
    → IsBlocks m size (replicate m (first_block size blocks))
copies-IsBlocks k m size [] h fits b = absurd (omega arith)
copies-IsBlocks k m size (x ∷ blocks) h fits (count, sizes, r) =
    (length-replicate m x, same_blocks m size x sizes.0, r)

-- Every coding device is a copy of the first data device.
abbrev pub copies : Jerasure
copies = record {
  Matrix = ℕ;
  vandermonde = λ k m w. 0;
  encode = λ k m w matrix blocks size. replicate m (first_block size blocks);
  encode-IsBlocks = copies-IsBlocks;
}

abbrev pub dirty : Malloc
dirty = record { fresh = λ n. replicate n 0xcc; length-fresh = λ n. length-replicate n 0xcc }

abbrev pub artifact : Bytes
artifact = codes "an encrypted artifact"

no_threshold : rs_shard_fd toy_md5 copies dirty (some artifact) 0 16 ≡ fault
unfolding rs_shard_fd
no_threshold = refl

abbrev pub unset : Meta
unset = record {
  origsize = pos 0;
  blocksize = pos 0;
  pre_padded = pos 0;
  k = pos 0;
  m = pos 0;
  w = pos 0;
  buffersize = pos 0;
  readins = pos 0;
}

scan_meta-pad_meta_example :
    (page : Bytes) × (pad_meta 1025 (meta_text (plan 8 200) 8 8 8) ≡ some page)
    × (length page ≡ 1024)
    × (scan_meta (page ++ codes "body") unset ≡ record {
      origsize = pos ((200 + 127) / 128 * 128);
      blocksize = pos ((200 + 127) / 128 * 16);
      pre_padded = pos 200;
      k = pos 8;
      m = pos 8;
      w = pos 8;
      buffersize = pos ((200 + 127) / 128 * 128);
      readins = pos 1;
    })
scan_meta-pad_meta_example =
    scan_meta-pad_meta 8 16 200 8 8 (codes "body") unset refl (omega arith) (omega arith)
      (omega arith)

rs_shard_fd-layout_example :
    rs_shard_fd toy_md5 copies dirty (some artifact) 8 16
    ≡ shards (
        layout
          (coded copies 8 16 (padded_meta copies 8 16 (plan 8 (length artifact))))
          (coded copies 8 16
            (artifact ++ drop (length artifact) (replicate (plan 8 (length artifact)).size 0xcc)))
          1
          (digests toy_md5 (
            coded copies 8 16 (
              artifact
              ++ drop (length artifact) (replicate (plan 8 (length artifact)).size 0xcc)))))
rs_shard_fd-layout_example =
    rs_shard_fd-layout toy_md5 copies dirty 8 2 16 artifact refl (omega arith) (omega arith)

abbrev honest : Bytes
honest = replicate 40 1

abbrev forged : Bytes
forged = replicate 40 2

-- Two honest files are outvoted by one that comes last.
outvoted :
    true_hash_val 16 (shard [] honest ∷ shard [] honest ∷ shard [] forged ∷ []) [] ≡ replicate 16 2
unfolding true_hash_val
outvoted = refl

copies_ones : FirstColumnOnes copies
copies_ones k m size b h fits size_b r = refl

abbrev pub blank : Vars
blank = record { meta_buffer = []; meta = unset }

validate_shards-rs_shard_fd_example :
    (files : List Bytes) × (rs_shard_fd toy_md5 copies dirty (some artifact) 8 16 ≡ shards files)
    × (validate_shards toy_md5 (named (λ i. i ∷ []) 1 files) 16 [] blank
        ≡ some (record { fds = named (λ i. i ∷ []) 1 files; num_good = 16; gone = [] }))
validate_shards-rs_shard_fd_example =
    validate_shards-rs_shard_fd toy_md5 copies dirty 16 artifact copies_ones (omega arith)
      (omega arith) (λ i. i ∷ []) [] blank (omega arith)

-- No file, one that is not opened, and one that is too short.
abbrev pub bad_slots : List Slot
bad_slots = missing ∷ unopened (codes "a") ∷ shard (codes "b") (codes "short") ∷ []

abbrev pub none_left : Validated
none_left = record {
  fds = missing ∷ missing ∷ missing ∷ [];
  num_good = 0;
  gone = codes "a" ∷ codes "b" ∷ [];
}

pub rejected : validate_shards toy_md5 bad_slots 16 [] blank ≡ some none_left
unfolding validate_shards sort_files removed
rejected = refl

validate_shards_slots_example :
    (length none_left.fds ≡ length bad_slots)
    × (none_left.num_good ≤ length bad_slots)
    × All IsOpened (take none_left.num_good none_left.fds)
validate_shards_slots_example =
    validate_shards_slots toy_md5 bad_slots 16 [] blank none_left rejected
