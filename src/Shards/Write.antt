-- ===== src/Shards/Write.antt =====
-- rs_shard.cpp: `rs_shard_meta` and `rs_shard_fd`. The shard files have different names
-- (`rs_shard_file` numbers them), so they are a list of contents.
pub mod Slices
pub mod Files
pub mod Layout
use race_slothy.Common.{
  ℕ, zero, suc, ◌+◌, ◌-◌, ◌*◌, ◌/◌, ◌%◌, ◌^◌, min, Bool, true, false, ◌&&◌, Option, none, some,
  List, [], ◌∷◌, ◌++◌, map, Bytes, u8, ltb, leb, ◌==◌, if◌then◌else◌, length, take, drop, replicate,
  Malloc,
}
use race_slothy.Shards.{Md5, Jerasure}
use race_slothy.Shards.Meta.{Plan, plan, meta_text, pad_meta}

-- `data[i] = block + (i * blocksize)`, for the `k - i` blocks left
unfoldable pub slices : ℕ → ℕ → ℕ → Bytes → List Bytes
slices zero i blocksize block = []
slices (suc n) i blocksize block =
    take blocksize (drop (i * blocksize) block) ∷ slices n (i + 1) blocksize block

-- The share's index in two bytes, the high one first.
unfoldable pub index_bytes : ℕ → Bytes
index_bytes i = u8 (i / 2 ^ 8) ∷ u8 i ∷ []

-- The content of `block` for a round: what `fread` finds of `buffersize` bytes goes to its front.
-- In the first branch what it did not find keeps what `block` held, in the second it becomes '0'.
unfoldable pub fill_block : ℕ → ℕ → ℕ → Bytes → Bytes → Bytes
fill_block total size buffersize unread block =
    let got = take buffersize unread in
    if ltb total size && leb (total + buffersize) size
    then got ++ drop (length got) block
    else if ltb total size && ltb size (total + buffersize)
    then got ++ replicate (buffersize - length got) b'0'
    else if total == size
    then replicate buffersize b'0'
    else block

-- what a round adds to `total`
unfoldable pub count_round : ℕ → ℕ → ℕ → Bytes → ℕ
count_round total size buffersize unread =
    if ltb total size && leb (total + buffersize) size
    then total + length (take buffersize unread)
    else total

-- the shard files that `fopen(…, "wb")` starts, for the shares from `i` on
unfoldable pub start_files : ℕ → ℕ → List Bytes
unfolding index_bytes
start_files zero i = []
start_files (suc n) i = index_bytes i ∷ start_files n (i + 1)

-- `fwrite(coding[i - 1], …)` to each file
unfoldable pub append_all : List Bytes → List Bytes → List Bytes
append_all [] coding = []
append_all (f ∷ fs) [] = f ∷ fs
append_all (f ∷ fs) (c ∷ cs) = (f ++ c) ∷ append_all fs cs

unfoldable pub append_rounds : List Bytes → List (List Bytes) → List Bytes
unfolding append_all
append_rounds files [] = files
append_rounds files (coding ∷ more) = append_rounds (append_all files coding) more

module _ (j : Jerasure) where
  -- `while (n <= readins)`, with the rounds left: the coding devices of each round
  unfoldable pub encode_rounds : ℕ → ℕ → ℕ → ℕ → ℕ → ℕ → ℕ → ℕ → Bytes → Bytes → List (List Bytes)
  encode_rounds zero k m w blocksize buffersize size total unread block = []
  encode_rounds (suc rounds) k m w blocksize buffersize size total unread block =
      let block' = fill_block total size buffersize unread block in
      let matrix = j.vandermonde k m w in
      j.encode k m w matrix (slices k 0 blocksize block') blocksize
      ∷ encode_rounds rounds k m w blocksize buffersize size
          (count_round total size buffersize unread) (drop buffersize unread) block'

  -- `buffersize` is 0 at its test, so `readins` is 1 and `buffersize` the length.
  unfoldable pub rs_shard_meta : Malloc → Bytes → ℕ → ℕ → ℕ → List Bytes
  unfolding encode_rounds start_files append_rounds
  rs_shard_meta heap buf k m w =
      let size = length buf in
      append_rounds (start_files m 1)
        (encode_rounds 1 k m w (size / k) size size 0 buf (heap.fresh size))

-- A shard file and the MD5 context of its body.
pub record ShardFile (md5 : Md5) : Type 0 where
  pub bytes : Bytes
  pub context : md5.Ctx

-- How sharding ends: with the shard files, by returning -1, by a division by zero, or not at all.
pub data Sharded : Type 0 where
  shards : List Bytes → Sharded
  failed : Sharded
  fault : Sharded
  stuck : Sharded

-- `RS_WORD_SIZE`
abbrev pub rs_word_size : ℕ
rs_word_size = 32

module _ (md5 : Md5) where
  unfoldable pub open_files : List Bytes → List (ShardFile md5)
  open_files [] = []
  open_files (f ∷ fs) = record { bytes = f; context = md5.init } ∷ open_files fs

  -- `write` and MD5_Update of one round
  unfoldable pub write_round : List (ShardFile md5) → List Bytes → List (ShardFile md5)
  write_round [] coding = []
  write_round (f ∷ fs) [] = f ∷ fs
  write_round (f ∷ fs) (c ∷ cs) =
      record { bytes = f.bytes ++ c; context = md5.update f.context c } ∷ write_round fs cs

  unfoldable pub write_rounds : List (ShardFile md5) → List (List Bytes) → List (ShardFile md5)
  unfolding write_round
  write_rounds files [] = files
  write_rounds files (coding ∷ more) = write_rounds (write_round files coding) more

  -- `all_hashes`
  unfoldable pub hash_files : List (ShardFile md5) → Bytes
  hash_files [] = []
  hash_files (f ∷ fs) = md5.final f.context ++ hash_files fs

  -- `write(fds[i]->fd, all_hashes, …)`
  unfoldable pub close_files : Bytes → List (ShardFile md5) → List Bytes
  close_files hashes [] = []
  close_files hashes (f ∷ fs) = (f.bytes ++ hashes) ∷ close_files hashes fs

  -- The shard files of a file that can be opened.
  unfoldable pub shard_body : Jerasure → Malloc → Bytes → Plan → ℕ → ℕ → Bytes → List Bytes
  unfolding rs_shard_meta open_files write_rounds hash_files close_files encode_rounds
  shard_body j heap file p k m buf =
      let files = open_files (rs_shard_meta j heap buf k m rs_word_size) in
      let rounds =
        encode_rounds j p.readins k m rs_word_size p.blocksize p.buffersize p.size 0 file
          (heap.fresh p.size) in
      let written = write_rounds files rounds in close_files (hash_files written) written

  -- The file is `none` if `fdopen` fails. The padding loop has fuel for 1025 rounds.
  unfoldable pub rs_shard_fd : Jerasure → Malloc → Option Bytes → ℕ → ℕ → Sharded
  unfolding shard_body
  rs_shard_fd j heap none threshold num_shares = failed
  rs_shard_fd j heap (some file) threshold num_shares =
      let p = plan threshold (length file) in
      if threshold == 0
      then fault
      else elim (pad_meta 1025 (meta_text p threshold num_shares rs_word_size)) [
        | none ↦ stuck
        | some buf ↦ shards (shard_body j heap file p threshold num_shares buf)
      ]
