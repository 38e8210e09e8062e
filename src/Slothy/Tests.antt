-- ===== src/Slothy/Tests.antt =====
-- The theorem on `download_artifact` with a small artifact.
use race_slothy.Common.{
  true, false, IsByte, All-replicate, drop, length, Option, ◌≡◌, refl, some, [], ◌∷◌, ◌++◌, arith,
  Bytes, codes, replicate, append-nil, pos,
}
use race_slothy.Header.Tests.{toy_sha}
use race_slothy.Secretbox.Tests.{glass, steady}
use race_slothy.Shards.Tests.{toy_md5, dirty, blank}
use race_slothy.Shards.Unshard.Toy.{packed, unpacking, packed_ones}
use race_slothy.Download.{answered}
use race_slothy.Pipeline.{done}
use race_slothy.Pipeline.Toy.{
  copying, glass_bytes, dirty_bytes, message, message_bytes, disk, pre_images, there,
}
use race_slothy.Download.Unshard.{Address, join_threads, download_and_unshard}
use race_slothy.Download.Unshard.RoundTrip.{slot_names, download_and_unshard-shard_file}
use race_slothy.Download.Unshard.Toy.{
  sharded, address, addresses, addresses-Serve, picked, picked_below, picked-IsDistinct, file_name,
}
use race_slothy.Base64.{base64_encode}
use race_slothy.Slothy.{Answer, finished, mapped_string, until_zero, download_artifact}
use race_slothy.Slothy.Retrieve.{stored_artifact, download_artifact-stored}

metadata_joined :
    download_and_unshard file_name glass copying toy_md5 packed toy_sha dirty unpacking
      (address 15 ∷ addresses picked)
      (some steady)
      50
      []
      blank
      (pos 0)
    ≡ done (message, slot_names (join_threads file_name (address 15 ∷ addresses picked)))
metadata_joined =
    download_and_unshard-shard_file glass copying toy_md5 packed unpacking toy_sha dirty packed_ones
      dirty_bytes glass_bytes (replicate 32 1) (replicate 24 2) (replicate 8 0xcc) message refl refl
      refl message_bytes (omega arith) pre_images (λ q below. refl) (codes "shard") disk sharded.0
      (codes "artifact.so") (codes "/proc/7/fd/3") steady steady 100 50 file_name (15 ∷ picked)
      (address 15) (addresses picked) [] blank (pos 0) there (λ i. omega arith) (omega arith)
      (λ i. omega arith) (omega arith) sharded.1 picked-IsDistinct picked_below (omega arith)
      (addresses-Serve (15 ∷ picked) picked_below)

abbrev artifact : Bytes
artifact = codes "an so"

abbrev so_address : Address
so_address = record {
  replies = λ n. answered 200 (
      stored_artifact glass toy_sha dirty steady 50 (replicate 32 1) (replicate 24 2) artifact refl
        refl (λ i. omega arith) (omega arith) (replicate 32 5) refl
      ∷ []);
  files_before = record { next = 9; files = [] };
}

abbrev answer : Answer
answer = record {
  json_sharded = true;
  json = address 15 ∷ addresses picked;
  so_sharded = false;
  so = so_address ∷ [];
}

abbrev strings : Bytes → Option (Bytes × Bytes)
strings text = some (base64_encode (replicate 32 1), base64_encode (replicate 24 2))

metadata_mapped : mapped_string message ≡ some message
unfolding mapped_string until_zero
metadata_mapped = refl

download_artifact-stored_example :
    download_artifact file_name glass copying toy_md5 packed toy_sha dirty unpacking strings
      (some steady)
      50
      (some answer)
      []
      blank
      (pos 0)
      4096
      (codes "an older artifact")
    ≡ finished true (artifact ++ drop (length artifact) (codes "an older artifact"))
download_artifact-stored_example =
    download_artifact-stored glass toy_sha dirty steady 50 (replicate 32 1) (replicate 24 2)
      artifact refl refl (λ i. omega arith) (omega arith) (replicate 32 5) refl copying toy_md5
      packed unpacking file_name strings answer so_address [] message message
      (slot_names (join_threads file_name (address 15 ∷ addresses picked))) [] blank (pos 0) 4096
      (codes "an older artifact") (All-replicate IsByte 32 1 (omega arith))
      (All-replicate IsByte 24 2 (omega arith)) refl metadata_joined metadata_mapped refl refl refl
      refl (append-nil _) (omega arith)
