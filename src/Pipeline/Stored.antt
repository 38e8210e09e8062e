-- ===== src/Pipeline/Stored.antt =====
-- shard.cpp: what `shard_file` stores, and what `unshard_fd` makes of some of it.
use race_slothy.Common.{
  ℕ, ◌+◌, ◌^◌, ◌<◌, ◌≤◌, ◌≡◌, refl, sym, ap, ◌∙◌, some, List, [], ◌++◌, arith, Bytes, IsByte, All,
  length, take, drop, get_or, length-append, take_left, drop_left, get_elem-get_or, All-get_or,
  All-append, All-replicate, replicate, Malloc, ℤ,
}
use race_slothy.Header.{Sha256}
use race_slothy.Header.RoundTrip.{randomized}
use race_slothy.Secretbox.{Nacl, Sink, zerobytes}
use race_slothy.Secretbox.RoundTrip.{Takes, encrypt_file-sealed, decrypt_file-sealed}
use race_slothy.Shards.{Md5, Jerasure}
use race_slothy.Shards.Write.{rs_shard_fd, shards}
use race_slothy.Shards.Files.{Store, look_up, put, shard_name, put_shards}
use race_slothy.Shards.Files.Names.{look_up-put, put_found, rs_shard_file-shards}
use race_slothy.Shards.Validate.{Vars}
use race_slothy.Shards.Validate.Accepts.{FirstColumnOnes, writes}
use race_slothy.Shards.Unshard.{Decoder}
use race_slothy.Shards.Unshard.Count.{IsDistinct}
use race_slothy.Shards.Unshard.Chosen.{chosen, chosen_names}
use race_slothy.Shards.Unshard.Recover.{
  output, length-output, length-output_file, body_bound, recovers,
}
use race_slothy.Pipeline.{
  Sss, sss_mlen, sss_share_len, done, after_box, shard_file, open_joined, unshard_fd,
}
use race_slothy.Pipeline.Finish.{finish_shards-Holds}
use race_slothy.Pipeline.Split.{split_shards-chosen}
use race_slothy.Pipeline.Present.{name_of}

-- `crypto_secretbox` makes bytes of bytes.
abbrev pub BoxesBytes : Nacl → Type 0
BoxesBytes nacl =
    (key nonce m c : Bytes) → All IsByte m → nacl.secretbox key nonce m ≡ some c → All IsByte c

module _ (nacl : Nacl) (sss : Sss) (md5 : Md5) (j : Jerasure) (dec : Decoder j) (sha : Sha256)
    (heap : Malloc) (ones : FirstColumnOnes j) (heap_bytes : (n : ℕ) → All IsByte (heap.fresh n))
    (box_bytes : BoxesBytes nacl) (key iv unset message : Bytes) (key_size : length key ≡ 32)
    (iv_size : length iv ≡ 24) (unset_size : length unset ≡ 8) (message_bytes : All IsByte message)
    (small : length message + 160 < 2 ^ 31) (total : ℕ) (enough : 8 ≤ total) (few : total < 256)
    (pre : ℕ → Bytes) (pres : (q : ℕ) → q < total → length (pre q) ≡ 32)
    (shard_prefix : Bytes) where
  abbrev pub secret : Bytes
  secret = key ++ (iv ++ unset)

  abbrev pub key_shares : List Bytes
  key_shares = sss.create secret total 8

  abbrev pub encrypted : Bytes
  encrypted = (nacl.sealed key iv message).0

  pub encrypted_size : length encrypted ≡ 32 + length message
  encrypted_size = (nacl.sealed key iv message).2

  pub encrypted_bytes : All IsByte encrypted
  encrypted_bytes =
      box_bytes key iv (replicate zerobytes 0 ++ message) encrypted
        (All-append IsByte (replicate zerobytes 0) message
          (All-replicate IsByte zerobytes 0 (omega arith)) message_bytes)
        (nacl.sealed key iv message).1

  secret_size : length secret ≡ sss_mlen
  secret_size = omega (arith, length-append key (iv ++ unset), length-append iv unset)

  -- The files of `rs_shard_fd`.
  abbrev pub rs_files : List Bytes
  rs_files =
      output md5 j dec heap total encrypted ones (omega arith) (omega (arith, encrypted_size))
        encrypted_bytes heap_bytes (name_of shard_prefix)

  pub file_count : length rs_files ≡ total
  file_count =
      length-output md5 j dec heap total encrypted ones (omega arith)
        (omega (arith, encrypted_size)) encrypted_bytes heap_bytes (name_of shard_prefix)

  abbrev pub rs_file : ℕ → Bytes
  rs_file q = get_or rs_files q []

  pub rs_files_written : rs_shard_fd md5 j heap (some encrypted) 8 total ≡ shards rs_files
  rs_files_written =
      writes md5 j heap total encrypted ones (omega arith) (omega (arith, encrypted_size))

  share_size : (q : ℕ) → q < total → length (get_or key_shares q []) ≡ sss_share_len
  share_size q below =
      let (count, sizes) = sss.length-create secret total 8 secret_size (omega arith) enough few in
      All-get_or (λ (s : Bytes). length s ≡ sss_share_len) key_shares q [] sizes
        (omega (arith, count))

  -- A shard as it is stored.
  abbrev pub stored_shard : ℕ → Bytes
  stored_shard q = randomized sha heap (pre q) (get_or key_shares q [] ++ rs_file q)

  shard_sizes :
      (q : ℕ)
      → q < total
      → let with_share = get_or key_shares q [] ++ rs_file q in
        (32 ≤ length with_share) × (length with_share + 32 < 2 ^ 31)
  shard_sizes q below =
      let size =
        length-output_file md5 j dec heap total encrypted ones (omega arith)
          (omega (arith, encrypted_size)) encrypted_bytes heap_bytes (name_of shard_prefix) q
          below in
      let bound =
        body_bound md5 j dec heap total encrypted ones (omega arith) (omega (arith, encrypted_size))
          encrypted_bytes heap_bytes (name_of shard_prefix) in
      let joined = length-append (get_or key_shares q []) (rs_file q) in
      (
        omega (arith, joined, share_size q below),
        omega (arith, joined, share_size q below, size, bound, encrypted_size),
      )

  pub shard_file_stores :
      (store : Store) (filename temp : Bytes) (sink : Sink) (fuel : ℕ)
      → look_up store filename ≡ some message
      → Takes sink
      → 32 + length message < fuel
      → (stored : Store) × (shard_file nacl sss md5 j sha heap store filename temp key iv unset
            (λ q. some (pre q))
            sink
            fuel
            shard_prefix
            8
            total
          ≡ done stored)
        × ((q : ℕ) → q < total → look_up stored (shard_name shard_prefix q) ≡ some (stored_shard q))
  unfolding shard_file after_box
  shard_file_stores store filename temp sink fuel there takes fueled =
      let sharded =
        rs_shard_file-shards md5 j heap (put store temp encrypted) temp shard_prefix encrypted 8
          total rs_files (look_up-put store temp encrypted)
          (writes md5 j heap total encrypted ones (omega arith) (omega (arith, encrypted_size))) in
      let before = put_shards (put store temp encrypted) shard_prefix 0 rs_files in
      let found = (λ (q : ℕ) (low : 0 ≤ q) (below : q < total).
        let number : 0 + q ≡ q = omega arith in
        ap (λ (k : ℕ). look_up before (shard_name shard_prefix k)) (sym number)
        ∙ put_found rs_files (put store temp encrypted) shard_prefix 0 q (rs_file q)
            (omega (arith, file_count))
            (get_elem-get_or rs_files q [] (omega (arith, file_count)))) in
      let (stored, eq, holds) =
        finish_shards-Holds sha heap shard_prefix total key_shares rs_file pre few total 0 before
          (omega arith) pres shard_sizes (λ q below. absurd (omega arith)) found in
      (
        stored,
        rw
            (
              there,
              encrypt_file-sealed nacl key iv message sink fuel takes fueled,
              after_box,
              sharded,
            )
            (rw sharded eq),
        holds,
      )

  pub joins :
      (names : ℕ → Bytes) (picks : List ℕ) (outfile : Sink) (fuel : ℕ) (garbage : Bytes)
      (vars : Vars) (pre_padded : ℤ)
      → IsDistinct picks
      → All (λ (q : ℕ). q < total) picks
      → 8 ≤ length picks
      → Takes outfile
      → length message < fuel
      → unshard_fd nacl sss md5 j sha heap dec
          (chosen names stored_shard picks)
          (some outfile)
          fuel
          8
          total
          garbage
          vars
          pre_padded
        ≡ done (message, chosen_names names picks)
  unfolding unshard_fd open_joined after_box
  joins names picks outfile fuel garbage vars pre_padded distinct below many takes fueled =
      let key_back : take 32 secret ≡ key = take_left key (iv ++ unset) key_size in
      let iv_back : take 24 (drop 32 secret) ≡ iv =
        ap (λ (t : Bytes). take 24 t) (drop_left key (iv ++ unset) key_size)
        ∙ take_left iv unset iv_size in
      rw
        (
          unshard_fd,
          split_shards-chosen sha heap names total key_shares rs_file pre pres share_size picks
              below,
          recovers md5 j dec heap total encrypted ones (omega arith) (omega (arith, encrypted_size))
              encrypted_bytes heap_bytes names picks garbage vars pre_padded
              (record { old = []; at = 0 }) distinct below many refl,
        )
        (rw
          (
            open_joined,
            sss.combine-create secret total 8 picks secret_size (omega arith) enough few distinct
                below many,
            key_back,
            iv_back,
            decrypt_file-sealed nacl key iv message outfile fuel takes fueled,
          )
          refl)
