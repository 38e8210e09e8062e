-- ===== src/Shards/Meta.antt =====
-- rs_shard.cpp: the metadata of a sharded file, printed by `rs_shard_fd` and read by `sscanf`.
pub mod Page
pub mod RoundTrip
use race_slothy.Common.{
  ℕ, zero, suc, ◌+◌, ◌-◌, ◌/◌, ◌%◌, Bool, true, false, not, ◌&&◌, Option, none, some, [], ◌∷◌, ◌++◌,
  Bytes, ltb, ◌==◌, if◌then◌else◌, length, print_nat, ℤ, scan_int,
}

-- The sizes that `rs_shard_fd` computes from the size of the file. `buffersize` is 0 when its
-- branch is taken, so the file is read in one round. The sizes are those that an `int` holds: the
-- file is smaller than 2 ^ 31 - 128 bytes.
pub record Plan : Type 0 where
  pub size : ℕ
  pub blocksize : ℕ
  pub padding_size : ℕ
  pub buffersize : ℕ
  pub readins : ℕ

-- what is missing to a multiple of 128
unfoldable pub padding : ℕ → ℕ
padding newsize = if newsize % 128 == 0 then 0 else 128 - newsize % 128

unfoldable pub plan : ℕ → ℕ → Plan
plan k file_size =
    let padding_size = padding file_size in
    let size = file_size + padding_size in
    let buffersize : ℕ = 0 in
    if ltb buffersize size && not (buffersize == 0)
    then record {
      size = size;
      blocksize = buffersize / k;
      padding_size = padding_size;
      buffersize = buffersize;
      readins = size / buffersize;
    }
    else record {
      size = size;
      blocksize = size / k;
      padding_size = padding_size;
      buffersize = size;
      readins = 1;
    }

-- "%d %d %d\n", "%d %d %d %d\n", "%d\n"
unfoldable pub meta_text : Plan → ℕ → ℕ → ℕ → Bytes
meta_text p k m w =
    print_nat p.size
    ++ 32
      ∷ (print_nat p.blocksize
          ++ 32
            ∷ (print_nat (p.size - p.padding_size)
                ++ 10
                  ∷ (print_nat k
                      ++ 32
                        ∷ (print_nat m
                            ++ 32
                              ∷ (print_nat w
                                  ++ 32
                                    ∷ (print_nat p.buffersize
                                        ++ 10 ∷ (print_nat p.readins ++ 10 ∷ [])))))))

-- `while (len != 1024)`, with fuel
unfoldable pub pad_meta : ℕ → Bytes → Option Bytes
pad_meta zero buf = none
pad_meta (suc fuel) buf =
    let rest = pad_meta fuel (buf ++ 0 ∷ []) in if length buf == 1024 then some buf else rest

-- The variables of the `sscanf`, in its order.
pub record Meta : Type 0 where
  pub origsize : ℤ
  pub blocksize : ℤ
  pub pre_padded : ℤ
  pub k : ℤ
  pub m : ℤ
  pub w : ℤ
  pub buffersize : ℤ
  pub readins : ℤ

-- One `%d` into a variable: where no number stands the conversion ends, and so do all later ones,
-- and the variables keep what they hold.
unfoldable pub scan_field : Bytes → ℤ → ℤ × Bytes
scan_field s old = elim (scan_int s) [ none ↦ (old, []) | some r ↦ r ]

-- `sscanf(meta_buffer, "%d %d %d\n%d %d %d %d\n%d", …)`
unfoldable pub scan_meta : Bytes → Meta → Meta
scan_meta s0 v =
    let (origsize, s1) = scan_field s0 v.origsize in
    let (blocksize, s2) = scan_field s1 v.blocksize in
    let (pre_padded, s3) = scan_field s2 v.pre_padded in
    let (k, s4) = scan_field s3 v.k in
    let (m, s5) = scan_field s4 v.m in
    let (w, s6) = scan_field s5 v.w in
    let (buffersize, s7) = scan_field s6 v.buffersize in
    let (readins, s8) = scan_field s7 v.readins in
    record {
      origsize = origsize;
      blocksize = blocksize;
      pre_padded = pre_padded;
      k = k;
      m = m;
      w = w;
      buffersize = buffersize;
      readins = readins;
    }
