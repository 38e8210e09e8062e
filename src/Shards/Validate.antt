-- ===== src/Shards/Validate.antt =====
-- rs_shard.cpp: `validate_shards`. What C reads before it is written (`true_hash_val` if no file is
-- long enough, the variables of the `sscanf`) is an argument; a run that leaves defined behaviour
-- gives `none`. The text that `sscanf` reads ends with the buffer, if no zero byte does so before.
pub mod Vote
pub mod Genuine
pub mod Accepts
pub mod Slots
use race_slothy.Common.{
  ℕ, zero, suc, ◌+◌, ◌-◌, ◌*◌, ◌^◌, Bool, true, false, ◌&&◌, ◌||◌, Option, none, some, List, [],
  ◌∷◌, ◌++◌, Bytes, ltb, leb, ◌==◌, if◌then◌else◌, length, take, drop, get_or, bytes_eq, replicate,
  ℤ, pos, negsuc,
}
use race_slothy.Shards.{Md5}
use race_slothy.Shards.Meta.{Meta, scan_meta}

-- An element of `fds`: the null pointer, a file that `fdopen` does not open, or a file's bytes.
-- The last two have a name.
pub data Slot : Type 0 where
  missing : Slot
  unopened : Bytes → Slot
  shard : Bytes → Bytes → Slot

-- `items` holds pairs of a key, which is an address, and a count; `cur_hash_val` is the array that
-- every file's digests are read into.
pub record Votes : Type 0 where
  pub cur_hash_val : Bytes
  pub items : List (ℕ × ℕ)

-- the address of the array `cur_hash_val`
abbrev pub cur_hash_ptr : ℕ
cur_hash_ptr = 1

-- `while (var < num_items)`: count an address, or append it
unfoldable pub count_key : ℕ → List (ℕ × ℕ) → List (ℕ × ℕ)
count_key key [] = (key, 1) ∷ []
count_key key ((k, v) ∷ items) =
    if k == key then (k, v + 1) ∷ items else (k, v) ∷ count_key key items

-- `fseek(fp, -hash_len, SEEK_END)`, then `fread`
abbrev pub last_bytes : ℕ → Bytes → Bytes
last_bytes n file = drop (length file - n) file

-- the first loop over `fds`
unfoldable pub collect : ℕ → List Slot → Votes → Votes
unfolding count_key
collect hash_len [] votes = votes
collect hash_len (missing ∷ fds) votes = collect hash_len fds votes
collect hash_len (unopened name ∷ fds) votes = collect hash_len fds votes
collect hash_len (shard name file ∷ fds) votes = collect hash_len fds (
    if ltb (length file) hash_len then votes else record {
      cur_hash_val = last_bytes hash_len file;
      items = count_key cur_hash_ptr votes.items;
    })

-- `for (var = 1; …)`: the first of those with the highest count
unfoldable pub pick : ℕ × ℕ → List (ℕ × ℕ) → ℕ × ℕ
pick winner [] = winner
pick winner (item ∷ items) = pick (if ltb winner.1 item.1 then item else winner) items

-- `true_hash_val`, copied from the winner's key unless that is null; before, it holds `garbage`.
unfoldable pub elect : Votes → Bytes → Bytes
unfolding pick
elect votes garbage = elim votes.items [
  | [] ↦ garbage
  | item ∷ items ↦ if (pick item items).0 == cur_hash_ptr then votes.cur_hash_val else garbage
]

unfoldable pub true_hash_val : ℕ → List Slot → Bytes → Bytes
unfolding collect elect
true_hash_val hash_len fds garbage =
    elect (collect hash_len fds (record { cur_hash_val = []; items = [] })) garbage

-- What the second loop keeps from one file to the next.
pub record Vars : Type 0 where
  pub meta_buffer : Bytes
  pub meta : Meta

-- `fread(dst, 1, n, fp)`: what it does not find keeps what `dst` held.
unfoldable pub fread_into : ℕ → Bytes → Bytes → Bytes
fread_into n unread dst = let got = take n unread in got ++ drop (length got) dst

-- `(low << 8) | hi` of the first two bytes; `fgetc` at the end gives EOF, which is 255 as a byte
unfoldable pub shard_index : Bytes → ℕ
shard_index file = get_or file 0 255 * 2 ^ 8 + get_or file 1 255

-- The files that are removed from the disk: the bad ones that have a name.
unfoldable pub removed : List Slot → List Bytes
removed [] = []
removed (missing ∷ fds) = removed fds
removed (unopened name ∷ fds) = name ∷ removed fds
removed (shard name file ∷ fds) = name ∷ removed fds

-- What is left in `fds`, the number that is returned, and the names of the removed files.
pub record Validated : Type 0 where
  pub fds : List Slot
  pub num_good : ℕ
  pub gone : List Bytes

module _ (md5 : Md5) where
  -- `while (n < readins)`, with the rounds left
  unfoldable pub hash_body : ℕ → ℕ → Bytes → Bytes → md5.Ctx → md5.Ctx
  hash_body zero blocksize unread buffer c = c
  hash_body (suc rounds) blocksize unread buffer c =
      let buffer' = fread_into blocksize unread buffer in
      hash_body rounds blocksize (drop blocksize unread) buffer' (md5.update c buffer')

  -- MD5 of the body, behind 2 + 128 bytes. With a negative `blocksize`, `calloc` gives the null
  -- pointer, and a round writes to it.
  unfoldable pub file_hash : ℤ → ℤ → Bytes → Option Bytes
  unfolding hash_body
  file_hash blocksize (negsuc n) file = some (md5.final md5.init)
  file_hash (negsuc s) (pos rounds) file = if rounds == 0 then some (md5.final md5.init) else none
  file_hash (pos size) (pos rounds) file =
      some (md5.final (hash_body rounds size (drop (2 + 128) file) (replicate size 0) md5.init))

  -- One file that is long enough: whether its digest is the trusted one of its index. An index
  -- that is not of a share is a read outside of `true_hash_val`.
  unfoldable pub check_file : ℕ → Bytes → Vars → Bytes → Option (Bool × Vars)
  check_file num_shares trusted vars file =
      let meta_buffer = fread_into 1024 (drop 2 file) vars.meta_buffer in
      let meta = scan_meta meta_buffer vars.meta in
      let index = shard_index file in
      elim (file_hash meta.blocksize meta.readins file) [
        | none ↦ none
        | some hash ↦
            if index == 0 || ltb num_shares index
            then none
            else some (
              bytes_eq hash (take 16 (drop (16 * (index - 1)) trusted)),
              record { meta_buffer = meta_buffer; meta = meta },
            )
      ]

  -- The second loop: the good files, and the bad ones.
  unfoldable pub sort_files : ℕ → Bytes → List Slot → Vars → Option (List Slot × List Slot)
  sort_files num_shares trusted [] vars = some ([], [])
  sort_files num_shares trusted (missing ∷ fds) vars =
      elim (sort_files num_shares trusted fds vars) [
        | none ↦ none
        | some r ↦ some (r.0, missing ∷ r.1)
      ]
  sort_files num_shares trusted (unopened name ∷ fds) vars =
      elim (sort_files num_shares trusted fds vars) [
        | none ↦ none
        | some r ↦ some (r.0, unopened name ∷ r.1)
      ]
  sort_files num_shares trusted (shard name file ∷ fds) vars =
      let rest = λ (v : Vars). sort_files num_shares trusted fds v in
      if ltb (length file) (16 * num_shares)
      then elim (rest vars) [ none ↦ none | some r ↦ some (r.0, shard name file ∷ r.1) ]
      else elim (check_file num_shares trusted vars file) [
        | none ↦ none
        | some c ↦ elim (rest c.1) [
          | none ↦ none
          | some r ↦
              if c.0 then some (shard name file ∷ r.0, r.1) else some (r.0, shard name file ∷ r.1)
        ]
      ]

  unfoldable pub validate_shards : List Slot → ℕ → Bytes → Vars → Option Validated
  validate_shards fds num_shares garbage vars =
      let trusted = true_hash_val (16 * num_shares) fds garbage in
      elim (sort_files num_shares trusted fds vars) [
        | none ↦ none
        | some r ↦ some (record {
          fds =
              if ltb 0 (length r.1)
              then r.0 ++ replicate (length fds - length r.0) missing
              else fds;
          num_good = length r.0;
          gone = removed r.1;
        })
      ]
