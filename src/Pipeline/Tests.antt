-- ===== src/Pipeline/Tests.antt =====
-- The theorems on the whole way of a file with concrete libraries.
use race_slothy.Common.{
  ◌≡◌, refl, inr, some, [], map, arith, codes, length, replicate, pos, ℕ, ◌<◌, List, Bytes, get_or,
  ◌++◌,
}
use race_slothy.Header.{xor_bytes}
use race_slothy.Header.Mask.{mask}
use race_slothy.Header.Tests.{toy_sha}
use race_slothy.Secretbox.Tests.{glass, steady}
use race_slothy.Shards.Write.{rs_shard_fd, shards}
use race_slothy.Shards.Files.{Store, look_up, shard_name}
use race_slothy.Shards.Tests.{toy_md5, dirty, blank}
use race_slothy.Shards.Unshard.Toy.{packed, unpacking, packed_ones}
use race_slothy.Pipeline.{done, shard_file, unshard_file}
use race_slothy.Pipeline.Present.{present}
use race_slothy.Pipeline.RoundTrip.{shard_file-done, unshard_file-shard_file}
use race_slothy.Pipeline.Wrap.{
  encrypt_file, randomize_file, unrandomize_file, decrypt_file, decrypt_file-encrypt_file,
}
use race_slothy.Pipeline.Toy.{
  copying, glass_bytes, dirty_bytes, message, message_bytes, disk, pre_images, there,
}

shard_file-done_example :
    (stored : Store) × (shard_file glass copying toy_md5 packed toy_sha dirty disk
        (codes "artifact.so")
        (codes "/proc/7/fd/3")
        (replicate 32 1)
        (replicate 24 2)
        (replicate 8 0xcc)
        (λ q. some (pre_images q))
        steady
        100
        (codes "shard")
        8
        16
      ≡ done stored)
    × (length (present 16 0 (codes "shard") stored) ≡ 16)
    × ((files : List Bytes) × (rs_shard_fd toy_md5 packed dirty
            (some (glass.sealed (replicate 32 1) (replicate 24 2) message).0)
            8
            16
          ≡ shards files)
        × (length files ≡ 16)
        × ((q : ℕ)
            → q < 16
            → let with_share =
                get_or
                  (copying.create (replicate 32 1 ++ (replicate 24 2 ++ replicate 8 0xcc)) 16 8)
                  q
                  []
                ++ get_or files q [] in
              look_up stored (shard_name (codes "shard") q)
              ≡ some (
                  pre_images q
                  ++ xor_bytes with_share (mask toy_sha (pre_images q) (length with_share)))))
shard_file-done_example =
    shard_file-done glass copying toy_md5 packed unpacking toy_sha dirty packed_ones dirty_bytes
      glass_bytes (replicate 32 1) (replicate 24 2) (replicate 8 0xcc) message refl refl refl
      message_bytes (omega arith) 16 (omega arith) (omega arith) pre_images (λ q below. refl)
      (codes "shard") disk (codes "artifact.so") (codes "/proc/7/fd/3") steady 100 there
      (λ i. omega arith) (omega arith)

-- The disk after `shard_file`.
made :
    (stored : Store) × (shard_file glass copying toy_md5 packed toy_sha dirty disk
        (codes "artifact.so")
        (codes "/proc/7/fd/3")
        (replicate 32 1)
        (replicate 24 2)
        (replicate 8 0xcc)
        (λ q. some (pre_images q))
        steady
        100
        (codes "shard")
        8
        16
      ≡ done stored)
    × (length (present 16 0 (codes "shard") stored) ≡ 16)
made =
    let (stored, eq, count, _) =
      shard_file-done glass copying toy_md5 packed unpacking toy_sha dirty packed_ones dirty_bytes
        glass_bytes (replicate 32 1) (replicate 24 2) (replicate 8 0xcc) message refl refl refl
        message_bytes (omega arith) 16 (omega arith) (omega arith) pre_images (λ q below. refl)
        (codes "shard") disk (codes "artifact.so") (codes "/proc/7/fd/3") steady 100 there
        (λ i. omega arith) (omega arith) in
    (stored, eq, count)

unshard_file-shard_file_example :
    unshard_file glass copying toy_md5 packed toy_sha dirty unpacking made.0
      (codes "shard")
      (some steady)
      50
      8
      16
      []
      blank
      (pos 0)
    ≡ done (message, map (shard_name (codes "shard")) (present 16 0 (codes "shard") made.0))
unshard_file-shard_file_example =
    unshard_file-shard_file glass copying toy_md5 packed unpacking toy_sha dirty packed_ones
      dirty_bytes glass_bytes (replicate 32 1) (replicate 24 2) (replicate 8 0xcc) message refl refl
      refl message_bytes (omega arith) 16 (omega arith) (omega arith) pre_images (λ q below. refl)
      (codes "shard") disk made.0 made.0 (codes "artifact.so") (codes "/proc/7/fd/3") steady steady
      100 50 [] blank (pos 0) there (λ i. omega arith) (omega arith) (λ i. omega arith)
      (omega arith) made.1 (λ q below. inr refl) (omega (arith, made.2))

decrypt_file-encrypt_file_example :
    (encrypted masked unmasked decrypted : Store) × (encrypt_file glass disk
        (codes "artifact.so")
        (codes "coded")
        (some steady)
        50
        (replicate 32 1)
        (replicate 24 2)
      ≡ done encrypted)
    × (randomize_file toy_sha dirty encrypted (codes "coded") (some (replicate 32 5)) ≡ done masked)
    × (unrandomize_file toy_sha dirty masked (codes "coded") ≡ done unmasked)
    × (decrypt_file glass unmasked
          (codes "coded")
          (codes "back")
          (some steady)
          50
          (replicate 32 1)
          (replicate 24 2)
        ≡ done decrypted)
    × (look_up decrypted (codes "back") ≡ some message)
decrypt_file-encrypt_file_example =
    decrypt_file-encrypt_file glass toy_sha dirty disk (codes "artifact.so") (codes "coded")
      (codes "back") message (replicate 32 1) (replicate 24 2) (replicate 32 5) steady steady 50
      there (omega arith) refl (λ i. omega arith) (λ i. omega arith) (omega arith)
