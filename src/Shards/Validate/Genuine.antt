-- ===== src/Shards/Validate/Genuine.antt =====
-- `validate_shards` on the shards that `rs_shard_fd` writes.
use race_slothy.Common.{
  bytes_eq_refl, ℕ, zero, suc, ◌+◌, ◌-◌, ◌*◌, ◌^◌, ◌≤◌, ◌<◌, ◌≡◌, refl, sym, ap, ◌∙◌, true, false,
  some, List, [], ◌∷◌, ◌++◌, arith, Bytes, ltb, ◌==◌, if◌then◌else◌, length, take, drop, replicate,
  All, length-append, length-replicate, append_assoc, append-nil, take_left, drop_left, drop_all,
  pos,
}
use race_slothy.Shards.{Md5}
use race_slothy.Shards.Meta.{Plan, meta_text, scan_meta}
use race_slothy.Shards.Meta.RoundTrip.{meta_of, scan_meta-text}
use race_slothy.Shards.Write.{index_bytes, rs_word_size}
use race_slothy.Shards.Write.Files.{layout, digests}
use race_slothy.Shards.Validate.{
  Slot, shard, last_bytes, Vars, fread_into, shard_index, hash_body, file_hash, check_file,
  sort_files,
}
use race_slothy.Shards.Validate.Vote.{last_table}

-- The files from index `i` on, opened, with the names that they have.
unfoldable pub named : (ℕ → Bytes) → ℕ → List Bytes → List Slot
named names i [] = []
named names i (f ∷ files) = shard (names i) f ∷ named names (i + 1) files

pub fread_exact :
    (n : ℕ) (xs rest dst : Bytes)
    → length xs ≡ n
    → length dst ≡ n
    → fread_into n (xs ++ rest) dst ≡ xs
unfolding fread_into
fread_exact n xs rest dst h k =
    rw (take_left xs rest h, drop_all (length xs) dst (omega arith), append-nil) refl

take_longer :
    (n : ℕ) (xs rest : Bytes)
    → length xs ≤ n
    → take n (xs ++ rest) ≡ xs ++ take (n - length xs) rest
take_longer n [] rest h = ap (λ (k : ℕ). take k rest) (omega arith)
take_longer zero (x ∷ xs) rest h = absurd (omega arith)
take_longer (suc n) (x ∷ xs) rest h =
    let left : suc n - suc (length xs) ≡ n - length xs = omega arith in
    rw (left, take_longer n xs rest (omega arith)) refl

pub fread_starts :
    (n : ℕ) (xs rest dst : Bytes)
    → length xs ≤ n
    → (tail : Bytes) × (fread_into n (xs ++ rest) dst ≡ xs ++ tail)
unfolding fread_into
fread_starts n xs rest dst h =
    let got = take n (xs ++ rest) in
    (
      take (n - length xs) rest ++ drop (length got) dst,
      rw (take_longer n xs rest h) (append_assoc xs (take (n - length xs) rest) _),
    )

-- The first of the eight blocks of the padded metadata.
abbrev pub meta_front : Plan → ℕ → Bytes
meta_front p m = let text = meta_text p 8 m rs_word_size in text ++ replicate (128 - length text) 0

-- The shards of a file that is cut into eight blocks: `front` is the printed metadata and zeros up
-- to 128 bytes, `trusted` the digests of all of them.
module _ (md5 : Md5) (p : Plan) (m : ℕ) (trusted : Bytes) (names : ℕ → Bytes) (once : p.readins ≡ 1)
    (text_size : length (meta_text p 8 m rs_word_size) ≤ 128) (table : length trusted ≡ 16 * m)
    (count : m < 2 ^ 16) where
  abbrev front : Bytes
  front = meta_front p m

  -- The shard with index `i` and the body `b`.
  abbrev genuine : ℕ → Bytes → Bytes
  genuine i b = index_bytes i ++ (front ++ (b ++ trusted))

  pub front_size : length front ≡ 128
  front_size =
      let text = meta_text p 8 m rs_word_size in
      omega (
        arith,
        length-append text (replicate (128 - length text) 0),
        length-replicate {A = ℕ} (128 - length text) 0,
      )

  pub genuine_index : (i : ℕ) (b : Bytes) → i < 2 ^ 16 → shard_index (genuine i b) ≡ i
  unfolding shard_index index_bytes
  genuine_index i b h = omega arith

  genuine_hash :
      (i : ℕ) (b : Bytes) (rounds : ℕ)
      → rounds ≡ 1
      → length b ≡ p.blocksize
      → file_hash md5 (pos p.blocksize) (pos rounds) (genuine i b)
        ≡ some (md5.final (md5.update md5.init b))
  unfolding file_hash hash_body index_bytes
  genuine_hash i b rounds one h =
      rw
        (
          one,
          hash_body,
          drop_left front (b ++ trusted) front_size,
          fread_exact p.blocksize b trusted (replicate p.blocksize 0) h
              (length-replicate {A = ℕ} p.blocksize 0),
        )
        refl

  pub genuine_long : (i : ℕ) (b : Bytes) → ltb (length (genuine i b)) (16 * m) ≡ false
  unfolding index_bytes
  genuine_long i b =
      ground (arith, length-append front (b ++ trusted), length-append b trusted, table)

  pub table_at_end : (i : ℕ) (b : Bytes) → last_bytes (16 * m) (genuine i b) ≡ trusted
  unfolding index_bytes
  table_at_end i b =
      let before = index_bytes i ++ (front ++ b) in
      let split : genuine i b ≡ before ++ trusted =
        ap (λ (t : Bytes). index_bytes i ++ t) (sym (append_assoc front b trusted)) in
      let cut : length (genuine i b) - 16 * m ≡ length before =
        omega (arith, ap length split, length-append before trusted, table) in
      rw (cut, split) (drop_left before trusted refl)

  genuine_meta :
      (i : ℕ) (b old : Bytes) (v : Vars)
      → scan_meta (fread_into 1024 (drop 2 (genuine i b)) old) v.meta ≡ meta_of p 8 m rs_word_size
  unfolding index_bytes
  genuine_meta i b old v =
      let text = meta_text p 8 m rs_word_size in
      let rest = replicate (128 - length text) 0 ++ (b ++ trusted) in
      let (tail, eq) = fread_starts 1024 text rest old (omega arith) in
      rw (append_assoc text (replicate (128 - length text) 0) (b ++ trusted), eq)
        (scan_meta-text p 8 m rs_word_size tail v.meta)

  -- The digest of the body at its place in the table.
  in_place :
      (i : ℕ) (before after b : Bytes)
      → length before ≡ 16 * i
      → trusted ≡ before ++ (md5.final (md5.update md5.init b) ++ after)
      → take 16 (drop (16 * i) trusted) ≡ md5.final (md5.update md5.init b)
  in_place i before after b h e =
      let digest = md5.final (md5.update md5.init b) in
      rw (e, drop_left before (digest ++ after) h)
        (take_left digest after (md5.length-final (md5.update md5.init b)))

  pub genuine_passes :
      (i : ℕ) (before after b : Bytes) (v : Vars)
      → i < m
      → length b ≡ p.blocksize
      → length before ≡ 16 * i
      → trusted ≡ before ++ (md5.final (md5.update md5.init b) ++ after)
      → (v' : Vars) × (check_file md5 m trusted v (genuine (i + 1) b) ≡ some (true, v'))
  unfolding check_file
  genuine_passes i before after b v below h k e =
      let digest = md5.final (md5.update md5.init b) in
      let index = genuine_index (i + 1) b (omega arith) in
      let some_share : (i + 1 == 0) ≡ false = ground arith in
      let in_range : ltb m (i + 1) ≡ false = ground arith in
      let slot : i + 1 - 1 ≡ i = omega arith in
      (
        record {
          meta_buffer = fread_into 1024 (drop 2 (genuine (i + 1) b)) v.meta_buffer;
          meta = scan_meta (fread_into 1024 (drop 2 (genuine (i + 1) b)) v.meta_buffer) v.meta;
        },
        rw
            (
              check_file,
              genuine_meta (i + 1) b v.meta_buffer v,
              genuine_hash (i + 1) b p.readins once h,
              index,
              some_share,
              in_range,
              slot,
              in_place i before after b k e,
              bytes_eq_refl digest,
            )
            (rw (genuine_meta (i + 1) b v.meta_buffer v) refl),
      )

  pub sort_genuine :
      (n i : ℕ) (before : Bytes) (bodies : List Bytes) (v : Vars)
      → length bodies ≡ n
      → All (λ (b : Bytes). length b ≡ p.blocksize) bodies
      → i + n ≤ m
      → length before ≡ 16 * i
      → trusted ≡ before ++ digests md5 bodies
      → let fds = named names (i + 1) (layout (replicate n front) bodies (i + 1) trusted) in
        (sort_files md5 m trusted fds v ≡ some (fds, [])) × (length fds ≡ n)
  unfolding sort_files named layout digests
  sort_genuine zero i before bodies v h sizes le k e = (refl, refl)
  sort_genuine (suc n) i before [] v h sizes le k e = absurd (omega arith)
  sort_genuine (suc n) i before (b ∷ bodies) v h (size, sizes) le k e =
      let digest = md5.final (md5.update md5.init b) in
      let (v', passes) = genuine_passes i before (digests md5 bodies) b v (omega arith) size k e in
      let long_enough = genuine_long (i + 1) b in
      let (rest, number) =
        sort_genuine n (i + 1) (before ++ digest) bodies v' (omega arith) sizes (omega arith)
          (omega (arith, length-append before digest, md5.length-final (md5.update md5.init b)))
          (e ∙ sym (append_assoc before digest (digests md5 bodies))) in
      (rw (long_enough, passes, rest) refl, ap suc number)

  pub takes_table :
      (i : ℕ) (b held : Bytes)
      → (if ltb (length (genuine i b)) (16 * m) then held else last_bytes (16 * m) (genuine i b))
        ≡ trusted
  takes_table i b held = rw (genuine_long i b, table_at_end i b) refl

  -- Once a shard's table is held, it stays.
  last_same :
      (n i : ℕ) (bodies : List Bytes)
      → length bodies ≡ n
      → last_table (16 * m) (named names i (layout (replicate n front) bodies i trusted)) trusted
        ≡ trusted
  unfolding last_table named layout
  last_same zero i bodies h = refl
  last_same (suc n) i [] h = absurd (omega arith)
  last_same (suc n) i (b ∷ bodies) h =
      let rest = named names (i + 1) (layout (replicate n front) bodies (i + 1) trusted) in
      ap (λ (t : Bytes). last_table (16 * m) rest t) (takes_table i b trusted)
      ∙ last_same n (i + 1) bodies (omega arith)

  -- One shard or more: the table that is held in the end is that of the shards.
  pub last_genuine :
      (n i : ℕ) (bodies : List Bytes) (garbage : Bytes)
      → 0 < n
      → length bodies ≡ n
      → last_table (16 * m) (named names i (layout (replicate n front) bodies i trusted)) garbage
        ≡ trusted
  unfolding last_table named layout
  last_genuine zero i bodies garbage h k = absurd (omega arith)
  last_genuine (suc n) i [] garbage h k = absurd (omega arith)
  last_genuine (suc n) i (b ∷ bodies) garbage h k =
      let rest = named names (i + 1) (layout (replicate n front) bodies (i + 1) trusted) in
      ap (λ (t : Bytes). last_table (16 * m) rest t) (takes_table i b garbage)
      ∙ last_same n (i + 1) bodies (omega arith)
