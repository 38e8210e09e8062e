-- ===== src/Download/Unshard/RoundTrip.antt =====
-- download.cpp: `download_and_unshard` with what `shard_file` has made.
use mathlib.Core.Option.{some-injective}
use race_slothy.Common.{
  ℕ, ◌+◌, ◌^◌, ◌<◌, ◌≤◌, ◌≡◌, refl, sym, ap, ◌∙◌, true, false, some, List, [], ◌∷◌, ◌==◌,
  if◌then◌else◌, arith, Bytes, IsByte, All, length, member, Malloc, ℤ,
}
use race_slothy.Header.{Sha256}
use race_slothy.Secretbox.{Nacl, Sink}
use race_slothy.Secretbox.RoundTrip.{Takes}
use race_slothy.Shards.{Md5, Jerasure}
use race_slothy.Shards.Files.{Store, look_up, shard_name}
use race_slothy.Shards.Validate.{Slot, missing, unopened, shard, Vars}
use race_slothy.Shards.Validate.Accepts.{FirstColumnOnes}
use race_slothy.Shards.Unshard.{Decoder}
use race_slothy.Shards.Unshard.Count.{IsDistinct}
use race_slothy.Shards.Unshard.Chosen.{chosen, chosen_names}
use race_slothy.Download.{download_with_retry_hardcoded}
use race_slothy.Download.Retry.{IsGood, body_of, retry-first_good}
use race_slothy.Pipeline.{Sss, done, shard_file}
use race_slothy.Pipeline.Stored.{BoxesBytes, stored_shard, shard_file_stores, joins}
use race_slothy.Pipeline.RoundTrip.{done_injective}
use race_slothy.Download.Unshard.{Address, content_of, returned, join_threads, download_and_unshard}

-- One of the five tries of an address succeeds, and the first that does gives these bytes.
abbrev pub Gives : Address → Bytes → Type 0
Gives a bytes =
    (last : ℕ) × (last < 5)
    × ((j : ℕ) → j < last → ¬ (IsGood (a.replies j)))
    × IsGood (a.replies last)
    × (body_of (a.replies last) ≡ bytes)

-- Each address gives the shard of its number.
unfoldable pub Serve : Store → Bytes → List ℕ → List Address → Type 0
Serve store shard_prefix [] [] = Unit
Serve store shard_prefix [] (a ∷ urls) = ⊥
Serve store shard_prefix (q ∷ picks) [] = ⊥
Serve store shard_prefix (q ∷ picks) (a ∷ urls) =
    ((bytes : Bytes) × (look_up store (shard_name shard_prefix q) ≡ some bytes) × Gives a bytes)
    × Serve store shard_prefix picks urls

-- The names of the files that are there.
unfoldable pub slot_names : List Slot → List Bytes
slot_names [] = []
slot_names (missing ∷ fds) = slot_names fds
slot_names (unopened name ∷ fds) = slot_names fds
slot_names (shard name file ∷ fds) = name ∷ slot_names fds

slot_names-chosen :
    (names file : ℕ → Bytes) (picks : List ℕ)
    → slot_names (chosen names file picks) ≡ chosen_names names picks
unfolding slot_names chosen chosen_names
slot_names-chosen names file [] = refl
slot_names-chosen names file (q ∷ picks) = rw (slot_names-chosen names file picks) refl

-- Names that give one number a new name.
abbrev renamed : ℕ → Bytes → (ℕ → Bytes) → ℕ → Bytes
renamed q name names k = if k == q + 1 then name else names k

chosen-renamed :
    (q : ℕ) (name : Bytes) (names file : ℕ → Bytes) (picks : List ℕ)
    → member q picks ≡ false
    → chosen (renamed q name names) file picks ≡ chosen names file picks
unfolding chosen member
chosen-renamed q name names file [] new = refl
chosen-renamed q name names file (p ∷ picks) new =
    let other : (p + 1 == q + 1) ≡ false = ground (arith, new) in
    rw (other, chosen-renamed q name names file picks (ground (arith, new))) refl

module _ (filename : ℕ → Bytes) where
  -- What the thread of an address that gives bytes returns.
  returned-Gives :
      (a : Address) (bytes : Bytes)
      → Gives a bytes
      → (name : Bytes) × (returned filename (download_with_retry_hardcoded a.replies a.files_before)
          ≡ shard name bytes)
  unfolding returned content_of
  returned-Gives a bytes (last, few, bad, good, body) =
      let d = a.files_before in
      let got = retry-first_good last a.replies d few bad good in
      let same : (d.next + last == d.next + last) ≡ true = ground arith in
      (filename (d.next + last), rw (returned, got) (rw (got, content_of, same, body) refl))

  -- The shards are those of the numbers, whatever their files are called.
  join_threads-chosen :
      (store : Store) (shard_prefix : Bytes) (file : ℕ → Bytes) (total : ℕ)
      → ((q : ℕ) → q < total → look_up store (shard_name shard_prefix q) ≡ some (file q))
      → (picks : List ℕ) (urls : List Address) → IsDistinct picks
      → All (λ (q : ℕ). q < total) picks
      → Serve store shard_prefix picks urls
      → (names : ℕ → Bytes) × (join_threads filename urls ≡ chosen names file picks)
  unfolding join_threads chosen IsDistinct Serve
  join_threads-chosen store shard_prefix file total holds [] [] distinct below serve =
      (filename, refl)
  join_threads-chosen store shard_prefix file total holds [] (a ∷ urls) distinct below serve =
      absurd serve
  join_threads-chosen store shard_prefix file total holds (q ∷ picks) [] distinct below serve =
      absurd serve
  join_threads-chosen store shard_prefix file total holds (q ∷ picks) (a ∷ urls) (new, distinct)
        (here, below) ((bytes, there, gives), serve) =
      let (name, thread) = returned-Gives a bytes gives in
      let (names, rest) =
        join_threads-chosen store shard_prefix file total holds picks urls distinct below serve in
      let same : bytes ≡ file q = some-injective bytes (file q) (sym there ∙ holds q here) in
      let own : (q + 1 == q + 1) ≡ true = ground arith in
      (
        renamed q name names,
        rw (thread, rest, own, chosen-renamed q name names file picks new, same) refl,
      )

-- With a message of fewer than 2 ^ 31 - 160 bytes that stood on the disk of the sharder, a key, an
-- iv and pre-images of the sizes of the code, a matrix whose first column is all ones, libraries and
-- `malloc` that give bytes, and enough fuel for an `fwrite` that takes a byte each time: if
-- `shard_file` has made 16 shards with threshold 8, and the addresses give eight or more of these
-- shards, no shard twice, each within its five tries, `download_and_unshard` writes exactly the
-- message and removes the files that the threads return. This is for any order of the addresses, any
-- numbers of the files in memory, and whatever the variables of `rs_unshard_fd` hold before.
pub download_and_unshard-shard_file :
    (nacl : Nacl) (sss : Sss) (md5 : Md5) (j : Jerasure) (dec : Decoder j) (sha : Sha256)
    (heap : Malloc) (ones : FirstColumnOnes j) (heap_bytes : (n : ℕ) → All IsByte (heap.fresh n))
    (box_bytes : BoxesBytes nacl) (key iv unset message : Bytes) (key_size : length key ≡ 32)
    (iv_size : length iv ≡ 24) (unset_size : length unset ≡ 8) (message_bytes : All IsByte message)
    (small : length message + 160 < 2 ^ 31) (pre : ℕ → Bytes)
    (pres : (q : ℕ) → q < 16 → length (pre q) ≡ 32) (shard_prefix : Bytes) (store stored : Store)
    (source temp : Bytes) (sink outfile : Sink) (fuel fuel' : ℕ) (filename : ℕ → Bytes)
    (picks : List ℕ) (a : Address) (urls : List Address) (garbage : Bytes) (vars : Vars)
    (pre_padded : ℤ)
    → look_up store source ≡ some message
    → Takes sink
    → 32 + length message < fuel
    → Takes outfile
    → length message < fuel'
    → shard_file nacl sss md5 j sha heap store source temp key iv unset
        (λ q. some (pre q))
        sink
        fuel
        shard_prefix
        8
        16
      ≡ done stored
    → IsDistinct picks
    → All (λ (q : ℕ). q < 16) picks
    → 8 ≤ length picks
    → Serve stored shard_prefix picks (a ∷ urls)
    → download_and_unshard filename nacl sss md5 j sha heap dec
        (a ∷ urls)
        (some outfile)
        fuel'
        garbage
        vars
        pre_padded
      ≡ done (message, slot_names (join_threads filename (a ∷ urls)))
unfolding download_and_unshard
download_and_unshard-shard_file nacl sss md5 j dec sha heap ones heap_bytes box_bytes key iv unset
      message key_size iv_size unset_size message_bytes small pre pres shard_prefix store stored
      source temp sink outfile fuel fuel' filename picks a urls garbage vars pre_padded there takes
      fueled takes' fueled' sharded distinct below many serve =
    let shard_of : ℕ → Bytes =
      stored_shard nacl sss md5 j dec sha heap ones heap_bytes box_bytes key iv unset message
        key_size iv_size unset_size message_bytes small 16 (omega arith) (omega arith) pre pres
        shard_prefix in
    let (made, eq, holds) =
      shard_file_stores nacl sss md5 j dec sha heap ones heap_bytes box_bytes key iv unset message
        key_size iv_size unset_size message_bytes small 16 (omega arith) (omega arith) pre pres
        shard_prefix store source temp sink fuel there takes fueled in
    let same : made ≡ stored = done_injective (sym eq ∙ sharded) in
    let (names, threads) =
      join_threads-chosen filename stored shard_prefix shard_of 16
        (λ q small.
          ap (λ (s : Store). look_up s (shard_name shard_prefix q)) (sym same) ∙ holds q small)
        picks (a ∷ urls) distinct below serve in
    rw
      (
        download_and_unshard,
        threads,
        slot_names-chosen names shard_of picks,
        joins nacl sss md5 j dec sha heap ones heap_bytes box_bytes key iv unset message key_size
            iv_size unset_size message_bytes small 16 (omega arith) (omega arith) pre pres
            shard_prefix names picks outfile fuel' garbage vars pre_padded distinct below many
            takes' fueled',
      )
      refl
