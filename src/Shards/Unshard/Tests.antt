-- ===== src/Shards/Unshard/Tests.antt =====
-- The theorems on unsharding with a concrete erasure code, and files of concrete bytes.
use race_slothy.Common.{
  ℕ, ◌<◌, ◌≡◌, refl, some, List, [], ◌∷◌, arith, Bytes, IsByte, codes, length, take, member, get_or,
  All, All-replicate, pos, Option,
}
use race_slothy.Shards.Tests.{toy_md5, dirty, artifact, blank, bad_slots, none_left, rejected}
use race_slothy.Shards.Write.{rs_shard_fd, shards}
use race_slothy.Shards.Validate.{removed}
use race_slothy.Shards.Unshard.{Output, recovered, failed, rs_unshard_fd, fault, gather, remove_all}
use race_slothy.Shards.Unshard.Count.{IsDistinct}
use race_slothy.Shards.Unshard.Chosen.{chosen, chosen_names}
use race_slothy.Shards.Unshard.Recover.{rs_unshard_fd-rs_shard_fd, rs_unshard_fd-too_few}
use race_slothy.Shards.Unshard.Opened.{gather-validate_shards}
use race_slothy.Shards.Unshard.Toy.{packed, unpacking, packed_ones}

abbrev numbered : ℕ → Bytes
numbered i = i ∷ []

-- Eight of sixteen shares.
abbrev eight : List ℕ
eight = 15 ∷ 3 ∷ 1 ∷ 8 ∷ 0 ∷ 12 ∷ 7 ∷ 10 ∷ []

abbrev three : List ℕ
three = 15 ∷ 3 ∷ 1 ∷ []

-- An output file that holds something before.
abbrev used : Output
used = record { old = codes "leftover"; at = 0 }

eight-IsDistinct : IsDistinct eight
unfolding IsDistinct member
eight-IsDistinct = (refl, (refl, (refl, (refl, (refl, (refl, (refl, (refl, tt))))))))

eight_below : All (λ (q : ℕ). q < 16) eight
eight_below = (
  omega arith,
  (
    omega arith,
    (omega arith, (omega arith, (omega arith, (omega arith, (omega arith, (omega arith, tt)))))),
  ),
)

artifact_bytes : All IsByte artifact
artifact_bytes = ground arith

dirty_bytes : (n : ℕ) → All IsByte (dirty.fresh n)
dirty_bytes n = All-replicate IsByte n 0xcc (omega arith)

rs_unshard_fd-rs_shard_fd_example :
    (files : List Bytes) × (rs_shard_fd toy_md5 packed dirty (some artifact) 8 16 ≡ shards files)
    × (rs_unshard_fd packed unpacking toy_md5
          (chosen numbered (λ q. get_or files q []) eight)
          8
          16
          []
          blank
          (pos 0)
          used
        ≡ recovered artifact (chosen_names numbered eight))
rs_unshard_fd-rs_shard_fd_example =
    rs_unshard_fd-rs_shard_fd toy_md5 packed unpacking dirty 16 artifact packed_ones (omega arith)
      (omega arith) artifact_bytes dirty_bytes numbered eight [] blank (pos 0) used eight-IsDistinct
      eight_below (omega arith) refl

rs_unshard_fd-too_few_example :
    (files : List Bytes) × (rs_shard_fd toy_md5 packed dirty (some artifact) 8 16 ≡ shards files)
    × (rs_unshard_fd packed unpacking toy_md5
          (chosen numbered (λ q. get_or files q []) three)
          8
          16
          []
          blank
          (pos 0)
          used
        ≡ failed used.old (chosen_names numbered three))
rs_unshard_fd-too_few_example =
    rs_unshard_fd-too_few toy_md5 packed unpacking dirty 16 artifact packed_ones (omega arith)
      (omega arith) artifact_bytes dirty_bytes numbered three [] blank (pos 0) used
      (omega arith, (omega arith, (omega arith, tt))) (omega arith) (omega arith)

gather-validate_shards_example :
    ((coding : List (Option Bytes)) × (gather 16 1 2 128 (take none_left.num_good none_left.fds)
        ≡ some coding)
      × (length coding ≡ 16))
    × (remove_all (take none_left.num_good none_left.fds)
        ≡ some (removed (take none_left.num_good none_left.fds)))
gather-validate_shards_example =
    gather-validate_shards toy_md5 bad_slots 16 [] blank none_left 16 2 128 rejected

no_threshold : rs_unshard_fd packed unpacking toy_md5 [] 0 16 [] blank (pos 0) used ≡ fault
unfolding rs_unshard_fd
no_threshold = refl
