-- ===== src/Download/Unshard.antt =====
-- artifact-manager-plugin/src/download.cpp: `download_and_unshard`, which downloads each shard in a
-- thread of its own and joins what the threads return. `pthread_create` and `pthread_join` do not
-- fail, and `get_fd_archdep` gives an empty file. No thread touches a file of another one, so each
-- runs on a disk of its own, whatever number the kernel gives its next file.
pub mod RoundTrip
pub mod Failed
pub mod Toy
mod Tests
use race_slothy.Common.{ℕ, Option, none, some, List, [], ◌∷◌, Bytes, ◌==◌, if◌then◌else◌, Malloc, ℤ}
use race_slothy.Header.{Sha256}
use race_slothy.Secretbox.{Nacl, Sink}
use race_slothy.Shards.{Md5, Jerasure}
use race_slothy.Shards.Validate.{Slot, missing, unopened, shard, Vars}
use race_slothy.Shards.Unshard.{Decoder}
use race_slothy.Download.{Disk, Reply, Retried, download_with_retry_hardcoded}
use race_slothy.Pipeline.{Sss, Ended, fault, unshard_fd}

-- What the tries of an address will give, and the disk that its thread starts on.
pub record Address : Type 0 where
  pub replies : ℕ → Reply
  pub files_before : Disk

-- `RS_SHARDS_REQUIRED` and `RS_SHARDS_TOTAL`
abbrev pub rs_shards_required : ℕ
rs_shards_required = 8

abbrev pub rs_shards_total : ℕ
rs_shards_total = 16

-- The content of a file in memory.
unfoldable pub content_of : ℕ → List (ℕ × Bytes) → Option Bytes
content_of fd [] = none
content_of fd ((n, content) ∷ files) = if n == fd then some content else content_of fd files

module _ (filename : ℕ → Bytes) where
  -- The pointer that a thread returns.
  unfoldable pub returned : Retried → Slot
  returned r = elim r.downloaded [
    | none ↦ missing
    | some fd ↦ elim (content_of fd r.disk.files) [
      | none ↦ unopened (filename fd)
      | some content ↦ shard (filename fd) content
    ]
  ]

  -- The loops that start and join the threads.
  unfoldable pub join_threads : List Address → List Slot
  join_threads [] = []
  join_threads (a ∷ urls) =
      returned (download_with_retry_hardcoded a.replies a.files_before) ∷ join_threads urls

  -- The log entry at the start reads `urls[0]`, also if there is none.
  unfoldable pub download_and_unshard :
      (nacl : Nacl) (sss : Sss) (md5 : Md5) (j : Jerasure) (sha : Sha256) (heap : Malloc)
      (dec : Decoder j)
      → List Address
      → Option Sink
      → ℕ
      → Bytes
      → Vars
      → ℤ
      → Ended (Bytes × List Bytes)
  download_and_unshard nacl sss md5 j sha heap dec [] outfile fuel garbage vars pre_padded = fault
  download_and_unshard nacl sss md5 j sha heap dec (a ∷ urls) outfile fuel garbage vars pre_padded =
      unshard_fd nacl sss md5 j sha heap dec (join_threads (a ∷ urls)) outfile fuel
        rs_shards_required rs_shards_total garbage vars pre_padded
