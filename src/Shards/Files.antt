-- ===== src/Shards/Files.antt =====
-- rs_shard.cpp: `rs_shard_file`, which names the shard files. The disk is a list of names with
-- contents; opening with O_CREAT makes an empty file of a missing one. The input is read before the
-- shards are written: an input whose name is also that of a shard, which the code empties when it
-- opens the shards, is outside of the model.
pub mod Names
mod Tests
use race_slothy.Common.{
  ℕ, ◌+◌, ◌≡◌, Option, none, some, List, [], ◌∷◌, ◌++◌, Bytes, bytes_eq, if◌then◌else◌, length,
  take, print_nat, Malloc,
}
use race_slothy.Shards.{Md5, Jerasure}
use race_slothy.Shards.Write.{Sharded, shards, failed, fault, stuck, rs_shard_fd}

abbrev pub Store : Type 0
Store = List (Bytes × Bytes)

unfoldable pub look_up : Store → Bytes → Option Bytes
look_up [] name = none
look_up ((k, file) ∷ store) name = if bytes_eq k name then some file else look_up store name

-- `fopen(name, "wb")` and what is written
unfoldable pub put : Store → Bytes → Bytes → Store
put [] name file = (name, file) ∷ []
put ((k, old) ∷ store) name file =
    if bytes_eq k name then (k, file) ∷ store else (k, old) ∷ put store name file

-- `snprintf(…, strlen(shard_prefix) + 8, "%s%lu", shard_prefix, i)`
unfoldable pub shard_name : Bytes → ℕ → Bytes
shard_name shard_prefix i = take (length shard_prefix + 7) (shard_prefix ++ print_nat i)

-- the shard files, with the names from number `i` on
unfoldable pub put_shards : Store → Bytes → ℕ → List Bytes → Store
put_shards store shard_prefix i [] = store
put_shards store shard_prefix i (file ∷ files) =
    put_shards (put store (shard_name shard_prefix i) file) shard_prefix (i + 1) files

module _ (md5 : Md5) (j : Jerasure) (heap : Malloc) where
  unfoldable pub rs_shard_file : Store → Bytes → Bytes → ℕ → ℕ → Sharded × Store
  rs_shard_file store filename shard_prefix threshold num_shares =
      let start : Bytes × Store = elim (look_up store filename) [
        | none ↦ ([], put store filename [])
        | some file ↦ (file, store)
      ] in
      elim (rs_shard_fd md5 j heap (some start.0) threshold num_shares) [
        | shards files ↦ (shards files, put_shards start.1 shard_prefix 0 files)
        | failed ↦ (failed, start.1)
        | fault ↦ (fault, start.1)
        | stuck ↦ (stuck, start.1)
      ]
