-- ===== src/Shards/Unshard.antt =====
-- rs_shard.cpp: `rs_unshard_fd`. RS_META_BUFFERSIZE is RS_META_SIZE and RS_META_READINS is 1, so the
-- metadata is read in one round of the branch without a buffer. The files are removed and freed in
-- the first round of the second part, so a second round there is a `fault`. A negative size in the
-- metadata, which the code hands to the libraries, is a `fault` too. The model is of runs in which a
-- file that could be opened once can be opened again.
pub mod Gather
pub mod Count
pub mod Restore
pub mod Chosen
pub mod Passes
pub mod Metadata
pub mod Body
pub mod Recover
pub mod Opened
pub mod Toy
mod Tests
use race_slothy.Common.{
  ◌>>=◌, ℕ, zero, suc, ◌+◌, ◌-◌, ◌*◌, ◌/◌, ◌^◌, ◌<◌, ◌≤◌, ◌≡◌, min, Bool, true, false, Option, none,
  some, List, [], ◌∷◌, ◌++◌, Bytes, IsByte, All, ltb, leb, ◌==◌, if◌then◌else◌, length, take, drop,
  replicate, ℤ, pos, negsuc, ftruncate, member, ◌⊎◌,
}
use race_slothy.Shards.{Md5, IsBlocks, Jerasure}
use race_slothy.Shards.Meta.{Meta, scan_meta}
use race_slothy.Shards.Write.{rs_word_size}
use race_slothy.Shards.Validate.{
  Slot, missing, unopened, shard, Vars, fread_into, shard_index, removed, Validated,
  validate_shards,
}

-- Two lists of devices, whose ids are those from `i` on, agree where an id is not in `erasures`.
unfoldable pub AgreeBut : List ℕ → ℕ → List Bytes → List Bytes → Type 0
AgreeBut erasures i [] [] = Unit
AgreeBut erasures i [] (y ∷ ys) = ⊥
AgreeBut erasures i (x ∷ xs) [] = ⊥
AgreeBut erasures i (x ∷ xs) (y ∷ ys) =
    ((member i erasures ≡ true) ⊎ (x ≡ y)) × AgreeBut erasures (i + 1) xs ys

-- `jerasure_matrix_decode(k, m, w, matrix, 1, erasures, data, coding, size)`: the data devices, `none`
-- if it returns -1. The ids of the data devices are those below `k`, those of the coding devices
-- follow; the terminator -1 of `erasures` is left out. Up to `m` erased devices are restored.
pub record Decoder (j : Jerasure) : Type 0 where
  pub decode : ℕ → ℕ → ℕ → j.Matrix → List ℕ → List Bytes → List Bytes → ℕ → Option (List Bytes)
  pub restores :
      (k m size : ℕ) (erasures : List ℕ) (blocks devs coding : List Bytes)
      → 0 < k
      → k + m < 2 ^ 32
      → IsBlocks k size blocks
      → All (λ (b : Bytes). All IsByte b) blocks
      → IsBlocks k size devs
      → IsBlocks m size coding
      → length erasures ≤ m
      → AgreeBut erasures 0 blocks devs
      → AgreeBut erasures k (j.encode k m 32 (j.vandermonde k m 32) blocks size) coding
      → decode k m 32 (j.vandermonde k m 32) erasures devs coding size ≡ some blocks

-- `RS_META_SIZE`
abbrev pub rs_meta_size : ℕ
rs_meta_size = 1024

-- The first file with an index: there is none, one that does not open comes first (its null pointer
-- goes to `fseek`), or its bytes.
pub data Found : Type 0 where
  absent : Found
  broken : Found
  found : Bytes → Found

-- `for (j = 0; j < num_good_shards; j++)`
unfoldable pub find_shard : ℕ → List Slot → Found
find_shard i [] = absent
find_shard i (missing ∷ fds) = find_shard i fds
find_shard i (unopened name ∷ fds) = broken
find_shard i (shard name file ∷ fds) =
    let rest = find_shard i fds in if i == shard_index file then found file else rest

-- `coding[i - 1]` for the indices from `i` on, each read at `off`; an index that is not found is
-- `none`.
unfoldable pub gather : ℕ → ℕ → ℕ → ℕ → List Slot → Option (List (Option Bytes))
gather zero i off blocksize fds = some []
gather (suc n) i off blocksize fds =
    let rest = gather n (i + 1) off blocksize fds in
    elim (find_shard i fds) [
      | broken ↦ none
      | absent ↦ elim rest [ none ↦ none | some coding ↦ some (none ∷ coding) ]
      | found file ↦ elim rest [
        | none ↦ none
        | some coding ↦
            some (some (fread_into blocksize (drop off file) (replicate blocksize 0)) ∷ coding)
      ]
    ]

-- `erasures[numerased] = i - 1` for the data devices
unfoldable pub data_ids : ℕ → ℕ → List ℕ
data_ids zero i = []
data_ids (suc n) i = i ∷ data_ids n (i + 1)

-- `erasures[numerased] = k + i - 1` for the coding devices that are not found
unfoldable pub missing_ids : ℕ → List (Option Bytes) → List ℕ
missing_ids i [] = []
missing_ids i (none ∷ coding) = i ∷ missing_ids (i + 1) coding
missing_ids i (some b ∷ coding) = missing_ids (i + 1) coding

-- what is allocated for those
unfoldable pub devices : ℕ → List (Option Bytes) → List Bytes
devices blocksize [] = []
devices blocksize (none ∷ coding) = replicate blocksize 0 ∷ devices blocksize coding
devices blocksize (some b ∷ coding) = b ∷ devices blocksize coding

-- How reading and decoding ends: outside of defined behaviour, with -1, or with the data devices.
pub data Phase : Type 0 where
  crashed : Phase
  unsuccessful : Phase
  decoded : List Bytes → Phase

module _ (j : Jerasure) (dec : Decoder j) where
  -- `erasures` has room for `k + m` numbers, the terminator included.
  unfoldable pub decode_phase : ℕ → ℕ → ℕ → ℕ → ℕ → List Slot → Phase
  decode_phase k m w off blocksize fds = elim (gather m 1 off blocksize fds) [
    | none ↦ crashed
    | some coding ↦
        let erasures = data_ids k 0 ++ missing_ids k coding in
        if length erasures == k + m
        then crashed
        else elim (dec.decode k m w (j.vandermonde k m w) erasures
            (replicate k (replicate blocksize 0)) (devices blocksize coding) blocksize) [
              | none ↦ unsuccessful
              | some devs ↦ decoded devs
            ]
  ]

-- The first `origsize` bytes of the data devices: a device that fits whole, or byte by byte.
unfoldable pub assemble : ℕ → ℕ → ℕ → List Bytes → Bytes
assemble origsize blocksize total [] = []
assemble origsize blocksize total (d ∷ devs) =
    if leb (total + blocksize) origsize
    then d ++ assemble origsize blocksize (total + blocksize) devs
    else let part = take (min blocksize (origsize - total)) d in
      part ++ assemble origsize blocksize (total + length part) devs

-- The metadata's numbers. Those that are sizes are not negative, `readins` is the number of rounds.
pub record Sizes : Type 0 where
  pub origsize : ℕ
  pub blocksize : ℕ
  pub pre_padded : ℤ
  pub k : ℕ
  pub m : ℕ
  pub w : ℕ
  pub buffersize : ℕ
  pub readins : ℕ

unfoldable pub natural : ℤ → Option ℕ
natural (pos n) = some n
natural (negsuc n) = none

-- how often `while (n <= readins)` runs, with `n = 1` before
unfoldable pub rounds : ℤ → ℕ
rounds (pos n) = n
rounds (negsuc n) = 0

unfoldable pub sizes_of : Meta → Option Sizes
sizes_of meta = do
  origsize ← natural meta.origsize
  blocksize ← natural meta.blocksize
  k ← natural meta.k
  m ← natural meta.m
  w ← natural meta.w
  buffersize ← natural meta.buffersize
  some (record {
    origsize = origsize;
    blocksize = blocksize;
    pre_padded = meta.pre_padded;
    k = k;
    m = m;
    w = w;
    buffersize = buffersize;
    readins = rounds meta.readins;
  })

-- `if (buffersize != origsize) … blocksize = buffersize / k`
unfoldable pub device_size : Sizes → Option ℕ
device_size s =
    if s.buffersize == s.origsize
    then some s.blocksize
    else if s.k == 0
    then none
    else some (s.buffersize / s.k)

-- `remove(fds[j]->filename)` of each; a null pointer is followed.
unfoldable pub remove_all : List Slot → Option (List Bytes)
remove_all [] = some []
remove_all (missing ∷ fds) = none
remove_all (unopened name ∷ fds) = do names ← remove_all fds; some (name ∷ names)
remove_all (shard name file ∷ fds) = do names ← remove_all fds; some (name ∷ names)

-- `fwrite` at the position of a descriptor, which is in the file
unfoldable pub overwrite : Bytes → ℕ → Bytes → Bytes
overwrite old at bytes = take at old ++ (bytes ++ drop (at + length bytes) old)

-- How unsharding ends: with 1 or with -1, the output file and the names of the files that it removed;
-- or outside of defined behaviour.
pub data Unsharded : Type 0 where
  recovered : Bytes → List Bytes → Unsharded
  failed : Bytes → List Bytes → Unsharded
  fault : Unsharded

-- The output file before: its content and the position in it.
pub record Output : Type 0 where
  pub old : Bytes
  pub at : ℕ

-- `ftruncate(fileno(fp), pre_padded)`, which refuses a negative length
unfoldable pub resize : ℤ → Bytes → List Bytes → Unsharded
resize (pos n) file gone = recovered (ftruncate n file) gone
resize (negsuc n) file gone = failed file gone

module _ (j : Jerasure) (dec : Decoder j) where
  -- from the second `sscanf` on, with the files that are good and the names removed before
  unfoldable pub unshard_body : ℕ → List Slot → List Bytes → Sizes → Output → Unsharded
  unshard_body meta_blocksize fds gone s out =
      if s.readins == 0 then resize s.pre_padded out.old gone else elim (device_size s) [
        | none ↦ fault
        | some blocksize ↦ elim (remove_all fds) [
          | none ↦ fault
          | some names ↦ elim (decode_phase j dec s.k s.m s.w (meta_blocksize + 2) blocksize fds) [
            | crashed ↦ fault
            | unsuccessful ↦ failed out.old (gone ++ names)
            | decoded devs ↦
                if s.readins == 1
                then resize s.pre_padded
                    (overwrite out.old out.at (assemble s.origsize blocksize 0 devs))
                    (gone ++ names)
                else fault
          ]
        ]
      ]

  -- the variables before the first `sscanf`, with what `pre_padded` happens to hold
  unfoldable pub meta_vars : ℕ → ℕ → ℤ → Meta
  meta_vars threshold num_shares pre_padded = record {
    origsize = pos rs_meta_size;
    blocksize = pos (rs_meta_size / threshold);
    pre_padded = pre_padded;
    k = pos threshold;
    m = pos num_shares;
    w = pos rs_word_size;
    buffersize = pos rs_meta_size;
    readins = pos 1;
  }

  -- the metadata from its data devices, in a block of zeros
  unfoldable pub meta_buffer : ℕ → List Bytes → Bytes
  meta_buffer blocksize devs =
      let text = assemble rs_meta_size blocksize 0 devs in
      text ++ replicate (rs_meta_size - length text) 0

  -- from the validation on
  unfoldable pub unshard_good : ℕ → ℕ → Validated → ℤ → Output → Unsharded
  unshard_good threshold num_shares v pre_padded out =
      let fds = take v.num_good v.fds in
      let blocksize = rs_meta_size / threshold in
      if ltb v.num_good threshold
      then failed out.old (v.gone ++ removed fds)
      else elim (decode_phase j dec threshold num_shares rs_word_size 2 blocksize fds) [
        | crashed ↦ fault
        | unsuccessful ↦ failed out.old v.gone
        | decoded devs ↦
            elim (sizes_of (
              scan_meta (meta_buffer blocksize devs) (meta_vars threshold num_shares pre_padded))) [
                | none ↦ fault
                | some s ↦ unshard_body blocksize fds v.gone s out
              ]
      ]

  -- `garbage` and `vars` are what `validate_shards` reads before it is written.
  unfoldable pub rs_unshard_fd : Md5 → List Slot → ℕ → ℕ → Bytes → Vars → ℤ → Output → Unsharded
  rs_unshard_fd md5 fds threshold num_shares garbage vars pre_padded out =
      if threshold == 0 then fault else elim (validate_shards md5 fds num_shares garbage vars) [
        | none ↦ fault
        | some v ↦ unshard_good threshold num_shares v pre_padded out
      ]
