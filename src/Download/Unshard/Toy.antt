-- ===== src/Download/Unshard/Toy.antt =====
-- Addresses of the shards of a small file.
use race_slothy.Common.{
  ℕ, zero, suc, ◌+◌, ◌<◌, ◌≡◌, refl, member, some, List, [], ◌∷◌, ◌++◌, arith, Bytes, All, codes,
  replicate, append-nil,
}
use race_slothy.Header.Tests.{toy_sha}
use race_slothy.Secretbox.Tests.{glass, steady}
use race_slothy.Shards.Files.{Store, look_up, shard_name}
use race_slothy.Shards.Tests.{toy_md5, dirty}
use race_slothy.Shards.Unshard.Count.{IsDistinct}
use race_slothy.Shards.Unshard.Toy.{packed, unpacking, packed_ones}
use race_slothy.Download.{Reply, unreachable, answered}
use race_slothy.Pipeline.{done, shard_file}
use race_slothy.Pipeline.Stored.{stored_shard, shard_file_stores}
use race_slothy.Pipeline.Toy.{
  copying, glass_bytes, dirty_bytes, message, message_bytes, disk, pre_images, there,
}
use race_slothy.Download.Retry.{IsGood}
use race_slothy.Download.Unshard.{Address}
use race_slothy.Download.Unshard.RoundTrip.{Gives, Serve}

abbrev pub part : ℕ → Bytes
part q =
    stored_shard glass copying toy_md5 packed unpacking toy_sha dirty packed_ones dirty_bytes
      glass_bytes (replicate 32 1) (replicate 24 2) (replicate 8 0xcc) message refl refl refl
      message_bytes (omega arith) 16 (omega arith) (omega arith) pre_images (λ q below. refl)
      (codes "shard") q

-- The disk after `shard_file`, with the shards.
pub sharded :
    (stored : Store) × (shard_file glass copying toy_md5 packed toy_sha dirty disk
        (codes "artifact.so")
        (codes "/proc/7/fd/3")
        (replicate 32 1)
        (replicate 24 2)
        (replicate 8 0xcc)
        (λ q. some (pre_images q))
        steady
        100
        (codes "shard")
        8
        16
      ≡ done stored)
    × ((q : ℕ) → q < 16 → look_up stored (shard_name (codes "shard") q) ≡ some (part q))
sharded =
    shard_file_stores glass copying toy_md5 packed unpacking toy_sha dirty packed_ones dirty_bytes
      glass_bytes (replicate 32 1) (replicate 24 2) (replicate 8 0xcc) message refl refl refl
      message_bytes (omega arith) 16 (omega arith) (omega arith) pre_images (λ q below. refl)
      (codes "shard") disk (codes "artifact.so") (codes "/proc/7/fd/3") steady 100 there
      (λ i. omega arith) (omega arith)

-- The name of a file in memory.
abbrev pub file_name : ℕ → Bytes
file_name n = codes "/proc/7/fd/" ++ n ∷ []

-- The first try fails.
abbrev pub second_time : Bytes → ℕ → Reply
second_time bytes zero = unreachable
second_time bytes (suc n) = answered 200 (bytes ∷ [])

abbrev pub address : ℕ → Address
address q = record {
  replies = second_time (part q);
  files_before = record { next = 5 + q; files = [] };
}

only_first : (q j : ℕ) → j < 1 → ¬ (IsGood (second_time (part q) j))
only_first q zero below e = e
only_first q (suc j) below e = omega arith

address-Gives : (q : ℕ) → Gives (address q) (part q)
address-Gives q = (1, omega arith, λ j below. only_first q j below, refl, append-nil (part q))

abbrev pub addresses : List ℕ → List Address
addresses [] = []
addresses (q ∷ picks) = address q ∷ addresses picks

pub addresses-Serve :
    (picks : List ℕ)
    → All (λ (q : ℕ). q < 16) picks
    → Serve sharded.0 (codes "shard") picks (addresses picks)
unfolding Serve
addresses-Serve [] below = tt
addresses-Serve (q ∷ picks) (here, below) =
    ((part q, sharded.2 q here, address-Gives q), addresses-Serve picks below)

abbrev pub picked : List ℕ
picked = 3 ∷ 0 ∷ 7 ∷ 8 ∷ 14 ∷ 10 ∷ 2 ∷ []

pub picked_below : All (λ (q : ℕ). q < 16) (15 ∷ picked)
picked_below = ground arith

pub picked-IsDistinct : IsDistinct (15 ∷ picked)
unfolding IsDistinct member
picked-IsDistinct = (refl, (refl, (refl, (refl, (refl, (refl, (refl, (refl, tt))))))))
