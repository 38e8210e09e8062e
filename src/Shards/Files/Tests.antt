-- ===== src/Shards/Files/Tests.antt =====
-- The theorem on the shard files at a concrete disk.
use race_slothy.Common.{
  ◌≡◌, refl, some, List, [], ◌∷◌, ◌++◌, arith, Bytes, bytes_eq, codes, length, drop, replicate,
}
use race_slothy.Shards.Meta.{plan}
use race_slothy.Shards.Write.{rs_shard_fd, shards}
use race_slothy.Shards.Write.Files.{layout, digests}
use race_slothy.Shards.Write.Layout.{coded, padded_meta, rs_shard_fd-layout}
use race_slothy.Shards.Files.{Store, look_up}
use race_slothy.Shards.Tests.{toy_md5, copies, dirty, artifact}

abbrev block : Bytes
block = artifact ++ drop (length artifact) (replicate (plan 8 (length artifact)).size 0xcc)

abbrev written : List Bytes
written =
    layout (coded copies 8 2 (padded_meta copies 8 2 (plan 8 (length artifact))))
      (coded copies 8 2 block) 1 (digests toy_md5 (coded copies 8 2 block))

sharded : rs_shard_fd toy_md5 copies dirty (some artifact) 8 2 ≡ shards written
sharded = rs_shard_fd-layout toy_md5 copies dirty 8 2 2 artifact refl (omega arith) (omega arith)

abbrev disk : Store
disk = (codes "art", artifact) ∷ []

abbrev first_of : List Bytes → Bytes
first_of [] = []
first_of (x ∷ xs) = x

found : look_up disk (codes "art") ≡ some artifact
unfolding look_up bytes_eq
found = refl

two : length written ≡ 2
unfolding layout coded
two = refl
