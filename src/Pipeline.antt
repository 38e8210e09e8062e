-- ===== src/Pipeline.antt =====
-- artifact-manager-plugin/src/shard.cpp: `shard_file`, which encrypts a file, shares its key, and
-- writes the masked shards, and `unshard_fd` and `unshard_file`, which join them. The disk is a
-- list of names with contents; a descriptor and its name mean the same file. The shares number
-- fewer than 256, as sss takes their number in a byte. get_fd_archdep gives an empty file, as it
-- does from version 3.17 of the kernel on, and `assert` is compiled in.
pub mod Finish
pub mod Split
pub mod Present
pub mod Stored
pub mod RoundTrip
pub mod Wrap
pub mod Toy
mod Tests
use race_slothy.Common.{
  ℕ, zero, suc, ◌+◌, ◌≤◌, ◌<◌, ◌≡◌, Option, none, some, List, [], ◌∷◌, ◌++◌, map, Bytes, All, ltb,
  if◌then◌else◌, length, take, drop, get_or, Malloc, ℤ,
}
use race_slothy.Header
use race_slothy.Header.{Sha256, Ending, randomize_header, unrandomize_header}
use race_slothy.Secretbox
use race_slothy.Secretbox.{
  Nacl, Outcome, Sink, crypto_secretbox_encrypt_file, crypto_secretbox_decrypt_file,
}
use race_slothy.Shards.{Md5, Jerasure}
use race_slothy.Shards.Write
use race_slothy.Shards.Files.{Store, look_up, put, shard_name, rs_shard_file}
use race_slothy.Shards.Validate.{Slot, missing, unopened, shard, Vars}
use race_slothy.Shards.Unshard
use race_slothy.Shards.Unshard.{Decoder, Output, Unsharded, rs_unshard_fd}
use race_slothy.Shards.Unshard.Count.{IsDistinct}

-- `sss_MLEN` and `sss_SHARE_LEN`
abbrev pub sss_mlen : ℕ
sss_mlen = 64

abbrev pub sss_share_len : ℕ
sss_share_len = 113

-- `sss_create_shares(out, data, n, k)`, in a run with some random numbers, and
-- `sss_combine_shares(data, shares, k)`, `none` if it does not return 0. Any `k` or more different
-- shares are combined into the data.
pub record Sss : Type 0 where
  pub create : Bytes → ℕ → ℕ → List Bytes
  pub combine : List Bytes → Option Bytes
  pub length-create :
      (secret : Bytes) (n k : ℕ)
      → length secret ≡ sss_mlen
      → 0 < k
      → k ≤ n
      → n < 256
      → (length (create secret n k) ≡ n)
        × All (λ (s : Bytes). length s ≡ sss_share_len) (create secret n k)
  pub combine-create :
      (secret : Bytes) (n k : ℕ) (picks : List ℕ)
      → length secret ≡ sss_mlen
      → 0 < k
      → k ≤ n
      → n < 256
      → IsDistinct picks
      → All (λ (q : ℕ). q < n) picks
      → k ≤ length picks
      → combine (map (λ q. get_or (create secret n k) q []) picks) ≡ some secret

-- How a call ends: with a result, by a failed `assert`, by `exit`, outside of defined behaviour, or
-- not within the rounds of fuel.
pub data Ended (A : Type 0) : Type 0 where
  done : A → Ended A
  aborted : Ended A
  exited : Ended A
  fault : Ended A
  running : Ended A

-- what follows the encryption or decryption of a file
unfoldable pub after_box : {A : Type 0} → Outcome → (Bytes → Ended A) → Ended A
after_box (Secretbox.wrote bytes) next = next bytes
after_box Secretbox.exited next = exited
after_box Secretbox.fault next = fault
after_box Secretbox.running next = running

module _ (sha : Sha256) (heap : Malloc) where
  -- The disk after `randomize_header`, whose result is ignored.
  unfoldable pub mask_shard : Store → Bytes → Bytes → Option Bytes → Option Store
  mask_shard store name joined rand = elim (randomize_header sha heap (some joined) rand) [
    | Header.wrote masked ↦ some (put (put store name joined) name masked)
    | Header.failed ↦ some (put store name joined)
    | Header.fault ↦ none
  ]

  -- `for (size_t i = 0; i < total_num_shares; i++)`, from `i` on, with the rounds left: the share of
  -- the key is put before the shard. A shard that is not there gives `fseek` the null pointer.
  unfoldable pub finish_shards :
      ℕ → ℕ → List Bytes → (ℕ → Option Bytes) → Bytes → Store → Ended Store
  finish_shards zero i shares rands shard_prefix store = done store
  finish_shards (suc n) i shares rands shard_prefix store =
      let name = shard_name shard_prefix i in
      elim (look_up store name) [
        | none ↦ fault
        | some content ↦ elim (mask_shard store name (get_or shares i [] ++ content) (rands i)) [
          | none ↦ fault
          | some store' ↦ finish_shards n (i + 1) shares rands shard_prefix store'
        ]
      ]

  -- The first loop of `unshard_fd`: the shards without their masks and shares of the key, and those
  -- shares. A null pointer is followed, and a shard that is shorter than a share is read behind its
  -- end.
  unfoldable pub split_shard :
      Bytes → Bytes → List Slot × List Bytes → Option (List Slot × List Bytes)
  split_shard name bytes rest =
      if ltb (length bytes) sss_share_len
      then none
      else some (shard name (drop sss_share_len bytes) ∷ rest.0, take sss_share_len bytes ∷ rest.1)

  unfoldable pub split_shards : List Slot → Option (List Slot × List Bytes)
  split_shards [] = some ([], [])
  split_shards (missing ∷ fds) = none
  split_shards (unopened name ∷ fds) = none
  split_shards (shard name file ∷ fds) = elim (split_shards fds) [
    | none ↦ none
    | some rest ↦ elim (unrandomize_header sha heap (some file)) [
      | Header.wrote bytes ↦ split_shard name bytes rest
      | Header.failed ↦ split_shard name file rest
      | Header.fault ↦ none
    ]
  ]

-- `shards_final`: the shards that are on the disk, from number `i` on
unfoldable pub open_shards : ℕ → ℕ → Bytes → Store → List Slot
open_shards zero i shard_prefix store = []
open_shards (suc n) i shard_prefix store =
    let rest = open_shards n (i + 1) shard_prefix store in
    let name = shard_name shard_prefix i in
    elim (look_up store name) [ none ↦ rest | some file ↦ shard name file ∷ rest ]

module _ (nacl : Nacl) (sss : Sss) (md5 : Md5) (j : Jerasure) (sha : Sha256) (heap : Malloc) where
  -- `temp` is the name of the file in memory, `unset` what `data` holds behind the key and `iv`.
  unfoldable pub shard_file :
      Store
      → Bytes
      → Bytes
      → Bytes
      → Bytes
      → Bytes
      → (ℕ → Option Bytes)
      → Sink
      → ℕ
      → Bytes
      → ℕ
      → ℕ
      → Ended Store
  shard_file store filename temp key iv unset rands sink fuel shard_prefix threshold total =
      let shares = sss.create (key ++ (iv ++ unset)) total threshold in
      let finish = finish_shards sha heap total 0 shares rands shard_prefix in
      after_box
        (crypto_secretbox_encrypt_file nacl (look_up store filename) (some sink) fuel key iv)
        (λ encrypted.
          let r =
            rs_shard_file md5 j heap (put store temp encrypted) temp shard_prefix threshold total in
          elim r.0 [
            | Write.shards files ↦ finish r.1
            | Write.failed ↦ finish r.1
            | Write.fault ↦ fault
            | Write.stuck ↦ running
          ])

  module _ (dec : Decoder j) where
    -- The key from its shares, and the decryption of the file that the shards give. The results are
    -- the output file and the names of the files that were removed.
    unfoldable pub open_joined :
        List Bytes → Option Sink → ℕ → Bytes → List Bytes → Ended (Bytes × List Bytes)
    open_joined shares outfile fuel encrypted gone = elim (sss.combine shares) [
      | none ↦ aborted
      | some restored ↦
          let key = take 32 restored in
          let iv = take 24 (drop 32 restored) in
          after_box (crypto_secretbox_decrypt_file nacl (some encrypted) outfile fuel key iv)
            (λ bytes. done (bytes, gone))
    ]

    -- The result of `rs_unshard_fd` is ignored.
    unfoldable pub unshard_fd :
        List Slot → Option Sink → ℕ → ℕ → ℕ → Bytes → Vars → ℤ → Ended (Bytes × List Bytes)
    unshard_fd fds outfile fuel threshold total garbage vars pre_padded =
        let f : Output = record { old = []; at = 0 } in
        elim (split_shards sha heap fds) [
          | none ↦ fault
          | some r ↦ elim (rs_unshard_fd j dec md5 r.0 threshold total garbage vars pre_padded f) [
            | Unshard.recovered file gone ↦ open_joined r.1 outfile fuel file gone
            | Unshard.failed file gone ↦ open_joined r.1 outfile fuel file gone
            | Unshard.fault ↦ fault
          ]
        ]

    unfoldable pub unshard_file :
        Store → Bytes → Option Sink → ℕ → ℕ → ℕ → Bytes → Vars → ℤ → Ended (Bytes × List Bytes)
    unshard_file store shard_prefix outfile fuel threshold total garbage vars pre_padded =
        unshard_fd (open_shards total 0 shard_prefix store) outfile fuel threshold total garbage
          vars pre_padded
