-- ===== src/Shards/Validate/Accepts.antt =====
-- rs_shard.cpp: `validate_shards` on the files that `rs_shard_fd` writes.
use race_slothy.Common.{
  ℕ, zero, suc, ◌+◌, ◌-◌, ◌*◌, ◌/◌, ◌%◌, ◌^◌, ◌≤◌, ◌<◌, ◌≡◌, refl, sym, ap, ◌∙◌, some, List, [],
  ◌∷◌, ◌++◌, arith, Bytes, length, drop, replicate, flatten, All, length-append, length-replicate,
  append_assoc, Malloc,
}
use race_slothy.Shards.{Md5, Jerasure}
use race_slothy.Shards.Meta.{Plan, plan, meta_text}
use race_slothy.Shards.Write.{rs_word_size, rs_shard_fd, shards}
use race_slothy.Shards.Write.Slices.{slices-flatten}
use race_slothy.Shards.Write.Files.{layout, digests}
use race_slothy.Shards.Write.Layout.{
  coded, padded_meta, rs_shard_fd-layout, sizes, meta_small, bodies-IsBlocks,
}
use race_slothy.Shards.Validate.{removed, Vars, true_hash_val, validate_shards}
use race_slothy.Shards.Validate.Vote.{true_hash_val-last}
use race_slothy.Shards.Validate.Genuine.{named, meta_front, sort_genuine, last_genuine}

-- The first column of the coding matrix is all ones: with zeros in every data device but the
-- first, each coding device is that one.
abbrev pub FirstColumnOnes : Jerasure → Type 0
FirstColumnOnes j =
    (k m size : ℕ) (b : Bytes)
    → 0 < k
    → k + m < 2 ^ 32
    → length b ≡ size
    → size % 8 ≡ 0
    → j.encode k m 32 (j.vandermonde k m 32) (b ∷ replicate (k - 1) (replicate size 0)) size
      ≡ replicate m b

pub replicate-add : (a b : ℕ) (x : ℕ) → replicate (a + b) x ≡ replicate a x ++ replicate b x
replicate-add zero b x =
    let none_more : 0 + b ≡ b = omega arith in ap (λ (n : ℕ). replicate n x) none_more
replicate-add (suc a) b x =
    let one_more : suc a + b ≡ suc (a + b) = omega arith in
    ap (λ (n : ℕ). replicate n x) one_more ∙ ap (λ (t : Bytes). x ∷ t) (replicate-add a b x)

pub meta_blocks :
    (text : Bytes)
    → length text ≤ 128
    → text ++ replicate (1024 - length text) 0
      ≡ flatten ((text ++ replicate (128 - length text) 0) ∷ replicate 7 (replicate 128 0))
meta_blocks text h =
    let total : 1024 - length text ≡ (128 - length text) + 896 = omega arith in
    rw (total, replicate-add (128 - length text) 896 0)
      (sym (append_assoc text (replicate (128 - length text) 0) (replicate 896 0)))

pub length-digests :
    (md5 : Md5) (bodies : List Bytes) → length (digests md5 bodies) ≡ 16 * length bodies
unfolding digests
length-digests md5 [] = refl
length-digests md5 (b ∷ bodies) = omega (
  arith,
  length-append (md5.final (md5.update md5.init b)) (digests md5 bodies),
  md5.length-final (md5.update md5.init b),
  length-digests md5 bodies,
)

-- The metadata that each shard begins with is the text itself.
pub coded_meta :
    (j : Jerasure) (p : Plan) (m : ℕ)
    → FirstColumnOnes j
    → m < 2 ^ 16
    → length (meta_text p 8 m rs_word_size) ≤ 128
    → coded j 8 m (padded_meta j 8 m p) ≡ replicate m (meta_front p m)
unfolding coded padded_meta
coded_meta j p m ones shares h =
    let text = meta_text p 8 m rs_word_size in
    let front = meta_front p m in
    let size : length front ≡ 128 = omega (
      arith,
      length-append text (replicate (128 - length text) 0),
      length-replicate {A = ℕ} (128 - length text) 0,
    ) in
    let blocks = front ∷ replicate 7 (replicate 128 0) in
    let eighth : length (text ++ replicate (1024 - length text) 0) / 8 ≡ 128 = omega (
      arith,
      length-append text (replicate (1024 - length text) 0),
      length-replicate {A = ℕ} (1024 - length text) 0,
    ) in
    rw (coded, eighth, meta_blocks text h, slices-flatten 8 128 blocks refl (size, omega arith))
      (ones 8 m 128 front (omega arith) (omega arith) size refl)

module _ (md5 : Md5) (j : Jerasure) (heap : Malloc) (m : ℕ) (file : Bytes)
    (ones : FirstColumnOnes j) (shares : m < 2 ^ 16) (small : length file + 128 < 2 ^ 31) where
  abbrev pub p : Plan
  p = plan 8 (length file)

  abbrev pub bodies : List Bytes
  bodies = coded j 8 m (file ++ drop (length file) (heap.fresh p.size))

  abbrev pub table : Bytes
  table = digests md5 bodies

  -- The files that `rs_shard_fd` writes.
  abbrev pub written : List Bytes
  written = layout (replicate m (meta_front p m)) bodies 1 table

  pub text_size : length (meta_text p 8 m rs_word_size) ≤ 128
  text_size = omega (arith, meta_small md5 j heap 8 2 m file refl (omega arith) small)

  pub body_blocks : (length bodies ≡ m) × All (λ (b : Bytes). length b ≡ p.blocksize) bodies
  body_blocks =
      let blocks = bodies-IsBlocks md5 j heap 8 2 m file refl (omega arith) small in
      (blocks.0, blocks.1)

  pub table_size : length table ≡ 16 * m
  table_size = omega (arith, length-digests md5 bodies, body_blocks.0)

  pub writes : rs_shard_fd md5 j heap (some file) 8 m ≡ shards written
  writes =
      rs_shard_fd-layout md5 j heap 8 2 m file refl (omega arith) small
      ∙ ap (λ (metas : List Bytes). shards (layout metas bodies 1 table))
          (coded_meta j p m ones shares text_size)

  -- With threshold 8, one share or more but fewer than 2 ^ 16, a file of fewer than 2 ^ 31 - 128
  -- bytes, and a coding matrix whose first column is all ones: `rs_shard_fd` writes as many files as
  -- asked for, and `validate_shards` of all of them, whatever their names are and whatever its
  -- variables hold, counts each as good, leaves them where they are, and removes none.
  pub validate_shards-rs_shard_fd :
      (names : ℕ → Bytes) (garbage : Bytes) (vars : Vars)
      → 0 < m
      → (files : List Bytes) × (rs_shard_fd md5 j heap (some file) 8 m ≡ shards files)
        × (validate_shards md5 (named names 1 files) m garbage vars
            ≡ some (record { fds = named names 1 files; num_good = m; gone = [] }))
  unfolding validate_shards removed
  validate_shards-rs_shard_fd names garbage vars some_share =
      let once = (sizes md5 j heap 8 2 m file refl (omega arith) small).4 in
      let fds = named names 1 written in
      let voted : true_hash_val (16 * m) fds garbage ≡ table =
        true_hash_val-last (16 * m) fds garbage
        ∙ last_genuine md5 p m table names once text_size table_size shares m 1 bodies garbage
            some_share body_blocks.0 in
      let (sorted, number) =
        sort_genuine md5 p m table names once text_size table_size shares m 0 [] bodies vars
          body_blocks.0 body_blocks.1 (omega arith) refl refl in
      (written, writes, rw (validate_shards, voted, sorted, number) refl)
