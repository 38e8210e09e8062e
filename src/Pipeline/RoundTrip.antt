-- ===== src/Pipeline/RoundTrip.antt =====
-- shard.cpp: `shard_file` and `unshard_file` together.
use race_slothy.Common.{
  ℕ, ◌+◌, ◌^◌, ◌<◌, ◌≤◌, ◌≡◌, refl, sym, ap, ◌∙◌, ◌⊎◌, inl, inr, Option, none, some, List, [], ◌∷◌,
  ◌++◌, map, get_or, arith, Bytes, IsByte, All, length, Malloc, ℤ,
}
use race_slothy.Header.{Sha256, xor_bytes}
use race_slothy.Header.Mask.{mask}
use race_slothy.Header.RoundTrip.{randomized}
use race_slothy.Secretbox.{Nacl, Sink}
use race_slothy.Secretbox.RoundTrip.{Takes}
use race_slothy.Shards.{Md5, Jerasure}
use race_slothy.Shards.Write.{rs_shard_fd, shards}
use race_slothy.Shards.Files.{Store, look_up, shard_name}
use race_slothy.Shards.Validate.{Slot, missing, Vars}
use race_slothy.Shards.Validate.Accepts.{FirstColumnOnes}
use race_slothy.Shards.Unshard.{Decoder}
use race_slothy.Pipeline.{
  Sss, Ended, done, aborted, exited, fault, running, unshard_file, shard_file, unshard_fd,
}
use race_slothy.Pipeline.Split.{split_shards-missing}
use race_slothy.Pipeline.Present.{
  present, length-present, open_shards-chosen, name_of, chosen_names-map, present-IsDistinct,
  present_below,
}
use race_slothy.Pipeline.Stored.{
  BoxesBytes, stored_shard, shard_file_stores, joins, rs_files, rs_files_written, file_count,
}

-- The file of a name is gone, or is what it was.
abbrev pub IsKept : Store → Store → Bytes → Type 0
IsKept stored kept name = (look_up kept name ≡ none) ⊎ (look_up kept name ≡ look_up stored name)

result : Store → Ended Store → Store
result store (done stored) = stored
result store aborted = store
result store exited = store
result store fault = store
result store running = store

pub done_injective : {a b : Store} → done a ≡ done b → a ≡ b
unfolding result
done_injective {a} {b} e = ap (λ (r : Ended Store). result a r) e

module _ (nacl : Nacl) (sss : Sss) (md5 : Md5) (j : Jerasure) (dec : Decoder j) (sha : Sha256)
    (heap : Malloc) (ones : FirstColumnOnes j) (heap_bytes : (n : ℕ) → All IsByte (heap.fresh n))
    (box_bytes : BoxesBytes nacl) (key iv unset message : Bytes) (key_size : length key ≡ 32)
    (iv_size : length iv ≡ 24) (unset_size : length unset ≡ 8) (message_bytes : All IsByte message)
    (small : length message + 160 < 2 ^ 31) (total : ℕ) (enough : 8 ≤ total) (few : total < 256)
    (pre : ℕ → Bytes) (pres : (q : ℕ) → q < total → length (pre q) ≡ 32)
    (shard_prefix : Bytes) where
  -- A shard as it is stored.
  abbrev shard_of : ℕ → Bytes
  shard_of =
      stored_shard nacl sss md5 j dec sha heap ones heap_bytes box_bytes key iv unset message
        key_size iv_size unset_size message_bytes small total enough few pre pres shard_prefix

  -- With eight shares or more but fewer than 256, a message of fewer than 2 ^ 31 - 160 bytes that
  -- stands on the disk, a key, an iv and pre-images of the sizes of the code, a matrix whose first
  -- column is all ones, libraries and `malloc` that give bytes, and enough fuel for an `fwrite` that
  -- takes a byte each time: `shard_file` with threshold 8 ends, and leaves all of the shards on the
  -- disk. Shard `q` has its pre-image in front, and behind it, combined with the mask of that
  -- pre-image, its share of the key and iv and then file `q` of those that `rs_shard_fd` makes of the
  -- encrypted message.
  pub shard_file-done :
      (store : Store) (filename temp : Bytes) (sink : Sink) (fuel : ℕ)
      → look_up store filename ≡ some message
      → Takes sink
      → 32 + length message < fuel
      → (stored : Store) × (shard_file nacl sss md5 j sha heap store filename temp key iv unset
            (λ q. some (pre q))
            sink
            fuel
            shard_prefix
            8
            total
          ≡ done stored)
        × (length (present total 0 shard_prefix stored) ≡ total)
        × ((files : List Bytes) × (rs_shard_fd md5 j heap
                (some (nacl.sealed key iv message).0)
                8
                total
              ≡ shards files)
            × (length files ≡ total)
            × ((q : ℕ)
                → q < total
                → let with_share =
                    get_or (sss.create (key ++ (iv ++ unset)) total 8) q [] ++ get_or files q [] in
                  look_up stored (shard_name shard_prefix q)
                  ≡ some (pre q ++ xor_bytes with_share (mask sha (pre q) (length with_share)))))
  unfolding randomized
  shard_file-done store filename temp sink fuel there takes fueled =
      let (stored, eq, holds) =
        shard_file_stores nacl sss md5 j dec sha heap ones heap_bytes box_bytes key iv unset message
          key_size iv_size unset_size message_bytes small total enough few pre pres shard_prefix
          store filename temp sink fuel there takes fueled in
      (
        stored,
        eq,
        length-present shard_prefix stored total 0 shard_of (λ q low below. holds q (omega arith)),
        (
          rs_files nacl sss md5 j dec sha heap ones heap_bytes box_bytes key iv unset message
              key_size iv_size unset_size message_bytes small total enough few pre pres
              shard_prefix,
          rs_files_written nacl sss md5 j dec sha heap ones heap_bytes box_bytes key iv unset
              message key_size iv_size unset_size message_bytes small total enough few pre pres
              shard_prefix,
          file_count nacl sss md5 j dec sha heap ones heap_bytes box_bytes key iv unset message
              key_size iv_size unset_size message_bytes small total enough few pre pres
              shard_prefix,
          holds,
        ),
      )

  -- With eight shares or more but fewer than 256, a message of fewer than 2 ^ 31 - 160 bytes that
  -- stood on the disk, a key, an iv and pre-images of the sizes of the code, a matrix whose first
  -- column is all ones, libraries and `malloc` that give bytes, and enough fuel for an `fwrite` that
  -- takes a byte each time: if `shard_file` with threshold 8 has left the shards on the disk, and
  -- eight or more of them are still there, unchanged, while the others are gone, `unshard_file` writes
  -- exactly the message and removes the shards that it finds. This is for any other files on the disk
  -- that `unshard_file` is run on, and whatever the variables of `rs_unshard_fd` hold before.
  pub unshard_file-shard_file :
      (store stored kept : Store) (filename temp : Bytes) (sink outfile : Sink) (fuel fuel' : ℕ)
      (garbage : Bytes) (vars : Vars) (pre_padded : ℤ)
      → look_up store filename ≡ some message
      → Takes sink
      → 32 + length message < fuel
      → Takes outfile
      → length message < fuel'
      → shard_file nacl sss md5 j sha heap store filename temp key iv unset
          (λ q. some (pre q))
          sink
          fuel
          shard_prefix
          8
          total
        ≡ done stored
      → ((q : ℕ) → q < total → IsKept stored kept (shard_name shard_prefix q))
      → 8 ≤ length (present total 0 shard_prefix kept)
      → unshard_file nacl sss md5 j sha heap dec kept shard_prefix
          (some outfile)
          fuel'
          8
          total
          garbage
          vars
          pre_padded
        ≡ done (message, map (shard_name shard_prefix) (present total 0 shard_prefix kept))
  unfolding unshard_file
  unshard_file-shard_file store stored kept filename temp sink outfile fuel fuel' garbage vars
        pre_padded there takes fueled takes' fueled' sharded kept_from many =
      let (stored', eq, holds) =
        shard_file_stores nacl sss md5 j dec sha heap ones heap_bytes box_bytes key iv unset message
          key_size iv_size unset_size message_bytes small total enough few pre pres shard_prefix
          store filename temp sink fuel there takes fueled in
      let same : stored' ≡ stored = done_injective (sym eq ∙ sharded) in
      let opened = open_shards-chosen shard_prefix kept total 0 shard_of (λ q low below.
        elim (kept_from q (omega arith)) [
          | inl gone ↦ inl gone
          | inr still ↦ inr (
              still
              ∙ ap (λ (s : Store). look_up s (shard_name shard_prefix q)) (sym same)
              ∙ holds q (omega arith))
        ]) in
      let names = name_of shard_prefix in
      rw
        (
          unshard_file,
          opened,
          joins nacl sss md5 j dec sha heap ones heap_bytes box_bytes key iv unset message key_size
              iv_size unset_size message_bytes small total enough few pre pres shard_prefix names
              (present total 0 shard_prefix kept) outfile fuel' garbage vars pre_padded
              (present-IsDistinct shard_prefix kept total 0) (present_below shard_prefix kept total)
              many takes' fueled',
          chosen_names-map shard_prefix (present total 0 shard_prefix kept),
        )
        refl

-- With a null pointer among the shards, `unshard_fd` leaves defined behaviour, however many other
-- shards it is given.
pub unshard_fd-missing :
    (nacl : Nacl) (sss : Sss) (md5 : Md5) (j : Jerasure) (dec : Decoder j) (sha : Sha256)
    (heap : Malloc) (before after : List Slot) (outfile : Option Sink) (fuel threshold total : ℕ)
    (garbage : Bytes) (vars : Vars) (pre_padded : ℤ)
    → unshard_fd nacl sss md5 j sha heap dec
        (before ++ missing ∷ after)
        outfile
        fuel
        threshold
        total
        garbage
        vars
        pre_padded
      ≡ fault
unfolding unshard_fd
unshard_fd-missing nacl sss md5 j dec sha heap before after outfile fuel threshold total garbage
      vars pre_padded =
    rw (unshard_fd, split_shards-missing sha heap before after) refl
