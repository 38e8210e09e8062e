-- ===== src/Shards.antt =====
-- artifact-manager-plugin/src/util/rs_shard.cpp: the Reed-Solomon shards of a file.
-- The children are `Meta` (the metadata text), `Write` (`rs_shard_meta`, `rs_shard_fd`),
-- `Files` (`rs_shard_file`), `Validate` (`validate_shards`), and what is proved of them. A file is its bytes; the libraries
-- Jerasure and OpenSSL are the two records below. `fp` is read uninitialised in `rs_shard_meta`;
-- the model is of runs where it is not the null pointer, where the sizes fit an `int`, the threshold
-- and the number of shares are not negative, and the input is not one of the shard files.
pub mod Meta
pub mod Write
pub mod Validate
pub mod Files
pub mod Reopen
pub mod Unshard
pub mod Tests
use race_slothy.Common.{◌+◌, ◌^◌, ℕ, ◌<◌, ◌%◌, ◌≡◌, List, Bytes, All, length, Option}

-- MD5_Init, MD5_Update, MD5_Final; MD5_DIGEST_LENGTH is 16.
pub record Md5 : Type 1 where
  pub Ctx : Type 0
  pub init : Ctx
  pub update : Ctx → Bytes → Ctx
  pub final : Ctx → Bytes
  pub length-final : (c : Ctx) → length (final c) ≡ 16

-- `n` blocks of `size` bytes each, a size that Jerasure takes (a multiple of `sizeof(long)`).
abbrev pub IsBlocks : ℕ → ℕ → List Bytes → Type 0
IsBlocks n size blocks =
    (length blocks ≡ n) × All (λ (b : Bytes). length b ≡ size) blocks × (size % 8 ≡ 0)

-- `reed_sol_vandermonde_coding_matrix(k, m, w)` and `jerasure_matrix_encode` with it: the coding
-- devices are as many as asked for, and as large as the data devices. The law is for words of 32 bits,
-- as in the sources, of which there must be more than devices.
pub record Jerasure : Type 1 where
  pub Matrix : Type 0
  pub vandermonde : ℕ → ℕ → ℕ → Matrix
  pub encode : ℕ → ℕ → ℕ → Matrix → List Bytes → ℕ → List Bytes
  pub encode-IsBlocks :
      (k m size : ℕ) (blocks : List Bytes)
      → 0 < k
      → k + m < 2 ^ 32
      → IsBlocks k size blocks
      → IsBlocks m size (encode k m 32 (vandermonde k m 32) blocks size)
