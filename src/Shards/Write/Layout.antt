-- ===== src/Shards/Write/Layout.antt =====
-- What `rs_shard_fd` leaves in the shard files.
use native.Mathlib.Nat.{mul-div_cancel_left}
use race_slothy.Common.{
  ℕ, zero, suc, ◌+◌, ◌-◌, ◌*◌, ◌/◌, ◌%◌, ◌^◌, ◌≤◌, ◌<◌, ◌≡◌, refl, ap, false, some, List, [], ◌∷◌,
  ◌++◌, arith, Bytes, ◌==◌, length, take, drop, flatten, replicate, append-nil, length-append,
  Malloc, length-drop, take_all, drop_all, length-replicate, take_left,
}
use race_slothy.Shards.{Md5, IsBlocks, Jerasure}
use race_slothy.Shards.Meta.{Plan, plan, meta_text, pad_meta}
use race_slothy.Shards.Meta.RoundTrip.{
  length-meta_text, padded, plan_lem, plan_sizes, pad_meta-replicate,
}
use race_slothy.Shards.Write.Files.{layout, digests, closed, hashed}
use race_slothy.Shards.Write.Slices.{flatten-slices, slices-IsBlocks}
use race_slothy.Shards.Write.{
  slices, fill_block, start_files, append_all, append_rounds, encode_rounds, rs_shard_meta, shards,
  write_rounds, rs_word_size, rs_shard_fd,
}

-- What `fread` of a file into a block that is as large or larger leaves there.
fill_file :
    (file : Bytes) (size : ℕ) (block : Bytes)
    → length block ≡ size
    → length file ≤ size
    → fill_block 0 size size file block ≡ file ++ drop (length file) block
unfolding fill_block
fill_file [] zero [] h k = refl
fill_file (x ∷ file) zero [] h k = absurd (omega arith)
fill_file file zero (x ∷ block) h k = absurd (omega arith)
fill_file file (suc size) block h k = rw (take_all (suc size) file k) (ground arith)

module _ (j : Jerasure) (k m : ℕ) where
  -- The coding devices of a buffer that is cut into `k` data devices.
  unfoldable pub coded : Bytes → List Bytes
  coded buf =
      let size = length buf / k in
      j.encode k m rs_word_size (j.vandermonde k m rs_word_size) (slices k 0 size buf) size

  pub coded-IsBlocks :
      (size : ℕ) (buf : Bytes)
      → 0 < k
      → k + m < 2 ^ 32
      → length buf ≡ k * size
      → size % 8 ≡ 0
      → IsBlocks m size (coded buf)
  unfolding coded
  coded-IsBlocks size buf h fits e r =
      let exact : length buf / k ≡ size = rw e (mul-div_cancel_left size h) in
      rw (exact, coded)
        (j.encode-IsBlocks k m size (slices k 0 size buf) h fits (slices-IsBlocks k size buf e r))

  -- The metadata as it is sharded: the text, and zeros up to 1024 bytes.
  unfoldable pub padded_meta : Plan → Bytes
  padded_meta p =
      let text = meta_text p k m rs_word_size in text ++ replicate (1024 - length text) 0

factors : (k q : ℕ) → k * q ≡ 16 → (0 < k) × (k ≤ 16)
factors zero q h = absurd (omega arith)
factors (suc k) zero h = absurd (omega arith)
factors (suc k) (suc q) h = (omega arith, omega arith)

le_product : (k b s : ℕ) → 0 < k → k * b ≡ s → b ≤ s
le_product zero b s h e = absurd (omega arith)
le_product (suc k) b s h e = omega arith

block_of_padded : (k q t : ℕ) → 0 < k → k * q ≡ 16 → t * 128 / k ≡ 8 * (t * q)
block_of_padded k q t h e =
    let split : t * 128 ≡ k * (8 * (t * q)) = omega (arith, ap (λ (x : ℕ). x * t) e) in
    rw split (mul-div_cancel_left (8 * (t * q)) h)

module _ (md5 : Md5) (j : Jerasure) (heap : Malloc) (k q m : ℕ) (file : Bytes)
    (divides : k * q ≡ 16) (shares : m < 2 ^ 31) (small : length file + 128 < 2 ^ 31) where
  abbrev p : Plan
  p = plan k (length file)

  -- The block that is coded: the file, and behind it what `malloc` left there.
  abbrev block : Bytes
  block = file ++ drop (length file) (heap.fresh p.size)

  threshold_pos : 0 < k
  threshold_pos = (factors k q divides).0

  devices : k + m < 2 ^ 32
  devices = omega (arith, factors k q divides)

  divides_128 : k * (8 * q) ≡ 128
  divides_128 = omega arith

  pub sizes :
      (p.size ≡ (length file + 127) / 128 * 128)
      × (k * p.blocksize ≡ p.size)
      × (p.size - p.padding_size ≡ length file)
      × (p.buffersize ≡ p.size)
      × (p.readins ≡ 1)
  sizes = plan_sizes k (8 * q) (length file) divides_128

  pub meta_small : length (meta_text p k m rs_word_size) ≤ 88
  meta_small =
      let part = le_product k p.blocksize p.size threshold_pos sizes.1 in
      length-meta_text p k m rs_word_size (omega (arith, sizes)) (omega (arith, sizes, part))
        (omega (arith, sizes)) (omega (arith, sizes)) (omega (arith, factors k q divides))
        (omega arith) (omega arith)

  length-padded_meta : length (padded_meta j k m p) ≡ k * (64 * q)
  unfolding padded_meta
  length-padded_meta =
      let text = meta_text p k m rs_word_size in
      omega (
        arith,
        length-append text (replicate (1024 - length text) 0),
        length-replicate {A = ℕ} (1024 - length text) 0,
        meta_small,
      )

  pub body_size : p.blocksize % 8 ≡ 0
  body_size =
      rw
        (
          plan_lem,
          padded (length file),
          block_of_padded k q ((length file + 127) / 128) threshold_pos divides,
        )
        (omega arith)

  pub length-block : length block ≡ k * p.blocksize
  length-block = omega (
    arith,
    length-append file (drop (length file) (heap.fresh p.size)),
    length-drop (length file) (heap.fresh p.size),
    heap.length-fresh p.size,
    sizes,
  )

  one_round :
      encode_rounds j p.readins k m rs_word_size p.blocksize p.buffersize p.size 0 file
        (heap.fresh p.size)
      ≡ coded j k m block ∷ []
  unfolding encode_rounds coded
  one_round =
      let exact : length block / k ≡ p.blocksize =
        rw length-block (mul-div_cancel_left p.blocksize threshold_pos) in
      rw
        (
          sizes.4,
          sizes.3,
          fill_file file p.size (heap.fresh p.size) (heap.length-fresh p.size)
              (omega (arith, sizes)),
          exact,
          coded,
        )
        refl

  meta_files :
      rs_shard_meta j heap (padded_meta j k m p) k m rs_word_size
      ≡ append_all (start_files m 1) (coded j k m (padded_meta j k m p))
  unfolding rs_shard_meta append_rounds coded
  meta_files =
      let buf = padded_meta j k m p in
      let size = length buf in
      rw
        (
          fill_file buf size (heap.fresh size) (heap.length-fresh size) (omega arith),
          drop_all size (heap.fresh size) (omega (arith, heap.length-fresh size)),
          append-nil,
        )
        refl

  abbrev metas : List Bytes
  metas = coded j k m (padded_meta j k m p)

  abbrev bodies : List Bytes
  bodies = coded j k m block

  metas-IsBlocks : IsBlocks m (64 * q) metas
  metas-IsBlocks =
      coded-IsBlocks j k m (64 * q) (padded_meta j k m p) threshold_pos devices length-padded_meta
        (omega arith)

  pub bodies-IsBlocks : IsBlocks m p.blocksize bodies
  bodies-IsBlocks =
      coded-IsBlocks j k m p.blocksize block threshold_pos devices length-block body_size

  metas_count : length metas ≡ m
  metas_count = metas-IsBlocks.0

  bodies_count : length bodies ≡ m
  bodies_count = bodies-IsBlocks.0

  -- With a threshold that divides 16, fewer than 2 ^ 31 shares and a file of fewer than 2 ^ 31 - 128
  -- bytes, `rs_shard_fd` leaves in the file of shard `i` (from 1): the index of two bytes, coding
  -- device `i` of the metadata padded to 1024 bytes, coding device `i` of the file padded with what
  -- `malloc` left behind it, and the MD5 digests of all shards' parts of the file.
  pub rs_shard_fd-layout :
      rs_shard_fd md5 j heap (some file) k m
      ≡ shards (
          layout
            (coded j k m (padded_meta j k m p))
            (coded j k m block)
            1
            (digests md5 (coded j k m block)))
  unfolding rs_shard_fd write_rounds
  rs_shard_fd-layout =
      let text = meta_text p k m rs_word_size in
      let pos : (k == 0) ≡ false = ground (arith, threshold_pos) in
      let full : pad_meta 1025 text ≡ some (padded_meta j k m p) =
        unfold padded_meta in
        pad_meta-replicate 1025 (1024 - length text) text (omega (arith, meta_small))
          (omega arith) in
      rw (pos, full, meta_files, one_round)
        (rw (hashed md5 m 1 metas bodies metas_count bodies_count)
          (ap shards (closed md5 m 1 metas bodies (digests md5 bodies) metas_count bodies_count)))

  -- Under the same conditions, the data devices that are coded begin with the file, joined in order:
  -- nothing of it is lost.
  pub sharded_data : take (length file) (flatten (slices k 0 p.blocksize block)) ≡ file
  sharded_data = rw (flatten-slices k p.blocksize block length-block) (take_left file _ refl)
