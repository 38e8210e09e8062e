-- ===== src/Shards/Reopen.antt =====
-- rs_shard.cpp: `rs_unshard_file`, which opens the shard files by their names. Files are opened for
-- reading and writing; the output is no shard, and can be opened.
pub mod RoundTrip
mod Tests
use race_slothy.Common.{
  ℕ, zero, suc, ◌+◌, Option, none, some, List, [], ◌∷◌, Bytes, bytes_eq, if◌then◌else◌, take, ℤ,
}
use race_slothy.Shards.{Md5, Jerasure}
use race_slothy.Shards.Files.{Store, look_up, put, shard_name}
use race_slothy.Shards.Validate.{Slot, missing, unopened, shard, Vars}
use race_slothy.Shards.Unshard.{Decoder, Output, Unsharded, recovered, failed, fault, rs_unshard_fd}

-- The slots of the `n` numbers from `i` on. A file that is not there has the descriptor -1.
unfoldable pub named_slots : ℕ → ℕ → Bytes → Store → List Slot
named_slots zero i shard_prefix store = []
named_slots (suc n) i shard_prefix store =
    (elim (look_up store (shard_name shard_prefix i)) [
      | none ↦ unopened (shard_name shard_prefix i)
      | some file ↦ shard (shard_name shard_prefix i) file
    ])
    ∷ named_slots n (i + 1) shard_prefix store

-- `num_files`
unfoldable pub num_files : List Slot → ℕ
num_files [] = 0
num_files (missing ∷ fds) = num_files fds
num_files (unopened name ∷ fds) = num_files fds
num_files (shard name file ∷ fds) = suc (num_files fds)

-- `remove`
unfoldable pub unlink : Store → Bytes → Store
unlink [] name = []
unlink ((k, file) ∷ store) name =
    let rest = unlink store name in if bytes_eq k name then rest else (k, file) ∷ rest

unfoldable pub unlink_all : Store → List Bytes → Store
unlink_all store [] = store
unlink_all store (name ∷ names) = unlink_all (unlink store name) names

-- What the output file held; opening makes it if it is not there.
unfoldable pub content_or_new : Option Bytes → Bytes
content_or_new none = []
content_or_new (some file) = file

module _ (md5 : Md5) (j : Jerasure) (dec : Decoder j) where
  -- The first `num_files` slots are passed on, whichever of them were opened.
  unfoldable pub rs_unshard_file :
      Store → Bytes → Bytes → ℕ → ℕ → Bytes → Vars → ℤ → Unsharded × Store
  rs_unshard_file store shard_prefix outfile threshold num_shares garbage vars pre_padded =
      let slots = named_slots num_shares 0 shard_prefix store in
      let out : Output = record { old = content_or_new (look_up store outfile); at = 0 } in
      elim (rs_unshard_fd j dec md5 (take (num_files slots) slots) threshold num_shares garbage vars
        pre_padded out) [
          | recovered file gone ↦ (recovered file gone, unlink_all (put store outfile file) gone)
          | failed file gone ↦ (failed file gone, unlink_all (put store outfile file) gone)
          | fault ↦ (fault, store)
        ]
