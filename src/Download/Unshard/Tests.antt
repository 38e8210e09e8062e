-- ===== src/Download/Unshard/Tests.antt =====
-- The theorems on the download of shards at concrete addresses.
use race_slothy.Common.{◌≡◌, refl, some, [], ◌∷◌, ◌++◌, arith, codes, replicate, pos}
use race_slothy.Header.Tests.{toy_sha}
use race_slothy.Secretbox.Tests.{glass, steady}
use race_slothy.Shards.Tests.{toy_md5, dirty, blank}
use race_slothy.Shards.Unshard.Toy.{packed, unpacking, packed_ones}
use race_slothy.Download.{unreachable}
use race_slothy.Pipeline.{done, fault}
use race_slothy.Pipeline.Toy.{
  copying, glass_bytes, dirty_bytes, message, message_bytes, disk, pre_images, there,
}
use race_slothy.Download.Unshard.{Address, join_threads, download_and_unshard}
use race_slothy.Download.Unshard.RoundTrip.{slot_names, download_and_unshard-shard_file}
use race_slothy.Download.Unshard.Failed.{download_and_unshard-failed}
use race_slothy.Download.Unshard.Toy.{
  sharded, address, addresses, addresses-Serve, picked, picked_below, picked-IsDistinct, file_name,
}

download_and_unshard-shard_file_example :
    download_and_unshard file_name glass copying toy_md5 packed toy_sha dirty unpacking
      (address 15 ∷ addresses picked)
      (some steady)
      50
      []
      blank
      (pos 0)
    ≡ done (message, slot_names (join_threads file_name (address 15 ∷ addresses picked)))
download_and_unshard-shard_file_example =
    download_and_unshard-shard_file glass copying toy_md5 packed unpacking toy_sha dirty packed_ones
      dirty_bytes glass_bytes (replicate 32 1) (replicate 24 2) (replicate 8 0xcc) message refl refl
      refl message_bytes (omega arith) pre_images (λ q below. refl) (codes "shard") disk sharded.0
      (codes "artifact.so") (codes "/proc/7/fd/3") steady steady 100 50 file_name (15 ∷ picked)
      (address 15) (addresses picked) [] blank (pos 0) there (λ i. omega arith) (omega arith)
      (λ i. omega arith) (omega arith) sharded.1 picked-IsDistinct picked_below (omega arith)
      (addresses-Serve (15 ∷ picked) picked_below)

abbrev down : Address
down = record { replies = λ n. unreachable; files_before = record { next = 3; files = [] } }

download_and_unshard-failed_example :
    download_and_unshard file_name glass copying toy_md5 packed toy_sha dirty unpacking
      (addresses picked ++ down ∷ address 15 ∷ [])
      (some steady)
      50
      []
      blank
      (pos 0)
    ≡ fault
download_and_unshard-failed_example =
    download_and_unshard-failed glass copying toy_md5 packed unpacking toy_sha dirty file_name
      (addresses picked) (address 15 ∷ []) down (some steady) 50 [] blank (pos 0) (λ i below e. e)
