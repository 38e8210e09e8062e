-- ===== src/Header/Tests.antt =====
-- The theorems on headers at a concrete digest, and runs of the two functions.
use race_slothy.Common.{
  ℕ, ◌+◌, ◌*◌, ◌%◌, ◌≡◌, refl, some, none, [], ◌∷◌, ◌++◌, arith, Bytes, length, replicate,
  length-replicate, Malloc, codes,
}
use race_slothy.Header.{
  Sha256, wrote, failed, fault, xor_bytes, randomize_header, unrandomize_header,
}
use race_slothy.Header.Mask.{mask}
use race_slothy.Header.RoundTrip.{randomize_header-mask, unrandomize-randomize}

abbrev pub total : Bytes → ℕ
total [] = 0
total (x ∷ xs) = x + total xs

-- A digest that depends on the input and on what was hashed before.
abbrev pub toy_sha : Sha256
toy_sha = record {
  Ctx = ℕ;
  init = 1;
  update = λ c input. (c * 3 + total input) % 65536;
  final = λ c. (replicate 32 (c % 256), c * 5 + 1);
  length-final = λ c. length-replicate 32 (c % 256);
}

abbrev dirty : Malloc
dirty = record { fresh = λ n. replicate n 0xdd; length-fresh = λ n. length-replicate n 0xdd }

abbrev shard_bytes : Bytes
shard_bytes = codes "a shard of seventy bytes, which is two blocks of thirty-two, and six.."

abbrev pre_image : Bytes
pre_image = replicate 32 9

no_rand : randomize_header toy_sha dirty (some shard_bytes) none ≡ failed
unfolding randomize_header
no_rand = refl

not_opened : unrandomize_header toy_sha dirty none ≡ fault
unfolding unrandomize_header
not_opened = refl

randomize_header-mask_example :
    randomize_header toy_sha dirty (some shard_bytes) (some pre_image)
    ≡ wrote (pre_image ++ xor_bytes shard_bytes (mask toy_sha pre_image (length shard_bytes)))
randomize_header-mask_example =
    randomize_header-mask toy_sha dirty pre_image shard_bytes refl (omega arith) (omega arith)

unrandomize-randomize_example :
    (out : Bytes) × (randomize_header toy_sha dirty (some shard_bytes) (some pre_image) ≡ wrote out)
    × (length out ≡ length shard_bytes + 32)
    × (unrandomize_header toy_sha dirty (some out) ≡ wrote shard_bytes)
unrandomize-randomize_example =
    unrandomize-randomize toy_sha dirty pre_image shard_bytes refl (omega arith) (omega arith)
