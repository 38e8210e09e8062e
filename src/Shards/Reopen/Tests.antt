-- ===== src/Shards/Reopen/Tests.antt =====
-- The theorem on `rs_unshard_file` with a concrete erasure code.
use race_slothy.Common.{
  ℕ, ◌+◌, ◌≡◌, refl, false, some, [], ◌∷◌, All, All-replicate, IsByte, arith, bytes_eq, codes, map,
  pos, print_nat,
}
use race_slothy.Shards.Tests.{toy_md5, dirty, artifact, blank}
use race_slothy.Shards.Files.{Store, look_up, put, shard_name, rs_shard_file}
use race_slothy.Shards.Unshard.{recovered}
use race_slothy.Shards.Unshard.Toy.{packed, unpacking, packed_ones}
use race_slothy.Pipeline.Present.{present}
use race_slothy.Shards.Reopen.{named_slots, num_files, unlink_all, rs_unshard_file}
use race_slothy.Shards.Reopen.RoundTrip.{rs_unshard_file-rs_shard_file}

abbrev disk : Store
disk = (codes "art", artifact) ∷ []

there : look_up disk (codes "art") ≡ some artifact
unfolding look_up bytes_eq
there = refl

artifact_bytes : All IsByte artifact
artifact_bytes = ground arith

dirty_bytes : (n : ℕ) → All IsByte (dirty.fresh n)
dirty_bytes n = All-replicate IsByte n 0xcc (omega arith)

not_art : (q : ℕ) → bytes_eq (shard_name (codes "shard") q) (codes "art") ≡ false
unfolding shard_name bytes_eq
not_art q = refl

not_out : (q : ℕ) → bytes_eq (shard_name (codes "shard") q) (codes "out") ≡ false
unfolding shard_name bytes_eq
not_out q = refl

abbrev sharded : Store
sharded = (rs_shard_file toy_md5 packed dirty disk (codes "art") (codes "shard") 8 (16 + 0)).1

rs_unshard_file-rs_shard_file_example :
    rs_unshard_file toy_md5 packed unpacking sharded
      (codes "shard")
      (codes "out")
      8
      (16 + 0)
      []
      blank
      (pos 0)
    ≡ (
      recovered artifact (map (shard_name (codes "shard")) (present 16 0 (codes "shard") sharded)),
      unlink_all
          (put sharded (codes "out") artifact)
          (map (shard_name (codes "shard")) (present 16 0 (codes "shard") sharded)),
    )
rs_unshard_file-rs_shard_file_example =
    rs_unshard_file-rs_shard_file toy_md5 packed unpacking dirty 16 0 artifact packed_ones
      (omega arith) (omega arith) artifact_bytes dirty_bytes (codes "shard") disk sharded
      (codes "art") (codes "out") [] blank (pos 0) there (λ q below. not_art q)
      (λ q below. not_out q) (λ q below. refl) (λ q low high. absurd (omega arith)) (omega arith)

-- With the first shard missing, the last one is not passed on.
first_missing :
    num_files (named_slots 3 0 (codes "s") ((codes "s1", []) ∷ (codes "s2", []) ∷ [])) ≡ 2
unfolding num_files named_slots look_up shard_name bytes_eq print_nat
first_missing = refl
