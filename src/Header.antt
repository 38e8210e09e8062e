-- ===== src/Header.antt =====
-- artifact-manager-plugin/src/util/rs_shard.cpp: `randomize_header` and `unrandomize_header`.
-- Both functions compute the same mask with the same text, `keystream` here; the file's bytes are
-- the argument and the result. A file that cannot be opened is `none`: both functions call `fseek`
-- on the null pointer before they test it, which is a `fault`. Sizes of 2 ^ 31 and more overflow an
-- `int` of the source and are outside of the model. `counter` is an `unsigned int`, stored in
-- little-endian order.
pub mod Mask
pub mod RoundTrip
pub mod Tests
use race_slothy.Common.{
  ◌>>=◌, ℕ, zero, suc, ◌+◌, ◌-◌, ◌*◌, ◌/◌, ◌%◌, ◌^◌, bit_xor, ◌≡◌, Option, none, some, [], ◌∷◌,
  ◌++◌, Bytes, u8, u32, ltb, length, take, drop, Malloc, memcpy, ftruncate, if◌then◌else◌,
}

-- OpenSSL's SHA256_Init, SHA256_Update and SHA256_Final. `final` gives the digest, of
-- SHA256_DIGEST_LENGTH bytes, and what it leaves in the context: the source goes on with the
-- context after SHA256_Final and does not call SHA256_Init again.
pub record Sha256 : Type 1 where
  pub Ctx : Type 0
  pub init : Ctx
  pub update : Ctx → Bytes → Ctx
  pub final : Ctx → Bytes × Ctx
  pub length-final : (c : Ctx) → length (final c).0 ≡ 32

-- How a function ends: it wrote the file, returned -1 with the file as it was, or left defined
-- behaviour.
pub data Ending : Type 0 where
  wrote : Bytes → Ending
  failed : Ending
  fault : Ending

-- `count_arr`, the four bytes of an `unsigned int`
unfoldable pub le32 : ℕ → Bytes
le32 n = u8 n ∷ u8 (n / 2 ^ 8) ∷ u8 (n / 2 ^ 16) ∷ u8 (n / 2 ^ 24) ∷ []

-- `for … out[i] = a[i] ^ b[i]`
unfoldable pub xor_bytes : Bytes → Bytes → Bytes
xor_bytes [] ys = []
xor_bytes (x ∷ xs) [] = []
xor_bytes (x ∷ xs) (y ∷ ys) = bit_xor x y ∷ xor_bytes xs ys

-- `NUM_HASHES`
abbrev pub num_hashes : ℕ
num_hashes = 100

module _ (sha : Sha256) where
  open sha use {Ctx, init, update, final}

  -- SHA256_Update, then SHA256_Final
  unfoldable pub digest : Ctx → Bytes → Bytes × Ctx
  digest c input = final (update c input)

  -- `for (int i = 1; …) pre_hash = hash(pre_hash)`, with the rounds left
  unfoldable pub rehash : ℕ → Bytes × Ctx → Bytes × Ctx
  unfolding digest
  rehash zero (hash, c) = (hash, c)
  rehash (suc n) (hash, c) = rehash n (digest c hash)

  -- `for (int i = 32; i < chunk32s; i += 32)`, with the rounds left
  unfoldable pub stretch : ℕ → ℕ → ℕ → Bytes → Ctx → Bytes → Option (Bytes × Ctx × ℕ)
  unfolding digest
  stretch zero i counter seed c buf = some (buf, c, counter)
  stretch (suc n) i counter seed c buf =
      let counter' = u32 (counter + 1) in
      let (hash, c') = digest c (seed ++ le32 counter') in
      do buf' ← memcpy buf i hash; stretch n (i + 32) counter' seed c' buf'

  module _ (heap : Malloc) where
    -- `hash_buf`, from the random pre-image and `pre_file_size`
    unfoldable pub keystream : Bytes → ℕ → Option Bytes
    unfolding rehash stretch
    keystream pre_image size = do
      let chunks = size / 32
      let chunk32s = chunks * 32
      let extra = size - chunk32s
      let (seed, c) = rehash (num_hashes - chunks) (digest init pre_image)
      first ← memcpy (heap.fresh size) 0 seed
      (buf, c', counter) ← stretch (chunks - 1) 32 0 seed c first
      let last = digest c' (seed ++ le32 (u32 (counter + 1)))
      memcpy buf chunk32s (take extra last.0)

    -- The second argument is what RAND_bytes gives for the pre-image, `none` if it fails.
    unfoldable pub randomize_header : Option Bytes → Option Bytes → Ending
    randomize_header none rand = fault
    randomize_header (some file) none = failed
    randomize_header (some file) (some buffer) = elim (keystream buffer (length file)) [
      | none ↦ fault
      | some hash_buf ↦ wrote (ftruncate (length file + 32) (buffer ++ xor_bytes file hash_buf))
    ]

    -- Below 32 bytes `pre_file_size` is negative, and a `memcpy` of its size leaves the block.
    unfoldable pub unrandomize_header : Option Bytes → Ending
    unrandomize_header none = fault
    unrandomize_header (some file) =
        if ltb (length file) 32
        then fault
        else let size = length file - 32 in
          elim (keystream (take 32 file) size) [
            | none ↦ fault
            | some hash_buf ↦
                wrote (xor_bytes (take size (drop 32 file)) hash_buf ++ drop (32 + size) file)
          ]
