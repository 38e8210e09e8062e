-- ===== src/Shards/Meta/Page.antt =====
-- rs_shard.cpp: the page of metadata in front of each shard, from the sizes that `rs_shard_fd`
-- computes to what `sscanf` makes of them.
use native.Mathlib.Nat.{mul-div_cancel_left}
use race_slothy.Common.{
  ℕ, zero, suc, ◌+◌, ◌-◌, ◌*◌, ◌/◌, ◌^◌, ◌≤◌, ◌<◌, ◌≡◌, refl, ap, ◌∙◌, some, ◌++◌, arith, Bytes,
  length, replicate, append_assoc, length-append, length-replicate, pos,
}
use race_slothy.Shards.Meta.{padding, plan, meta_text, pad_meta, Meta, scan_meta}
use race_slothy.Shards.Meta.RoundTrip.{
  plan_lem, padded, plan_sizes, meta_of, scan_meta-text, pad_meta-replicate, length-meta_text,
}

small_plan :
    (k q file_size m w : ℕ)
    → k * q ≡ 128
    → file_size + 128 < 2 ^ 31
    → m < 2 ^ 31
    → w < 2 ^ 31
    → length (meta_text (plan k file_size) k m w) ≤ 88
small_plan zero q file_size m w h small hm hw = absurd (omega arith)
small_plan (suc k) zero file_size m w h small hm hw = absurd (omega arith)
small_plan (suc k) (suc q) file_size m w h small hm hw =
    let sizes = plan_sizes (suc k) (suc q) file_size h in
    length-meta_text (plan (suc k) file_size) (suc k) m w (omega (arith, sizes))
      (omega (arith, sizes)) (omega (arith, sizes)) (omega (arith, sizes)) (omega arith)
      (omega arith) (omega arith)

block_of : (k q t : ℕ) → k * q ≡ 128 → t * 128 / k ≡ t * q
block_of zero q t h = absurd (omega arith)
block_of (suc k) q t h =
    let split : t * 128 ≡ suc k * (t * q) = rw (← h) (grind arith) in
    rw split (mul-div_cancel_left (t * q) (omega arith))

meta_of-plan :
    (k q n m w : ℕ)
    → k * q ≡ 128
    → meta_of (plan k n) k m w ≡ record {
      origsize = pos ((n + 127) / 128 * 128);
      blocksize = pos ((n + 127) / 128 * q);
      pre_padded = pos n;
      k = pos k;
      m = pos m;
      w = pos w;
      buffersize = pos ((n + 127) / 128 * 128);
      readins = pos 1;
    }
meta_of-plan k q n m w h =
    let back : n + padding n - padding n ≡ n = omega arith in
    rw (plan_lem, back, padded n, block_of k q ((n + 127) / 128) h) refl

-- The numbers of `m` and `w` and the size of a file of fewer than 2 ^ 31 - 128 bytes fit an `int`,
-- and the threshold `k` divides 128 in `q` parts: the metadata that `rs_shard_fd` prints of its sizes
-- is padded to exactly 1024 bytes, with fuel for 1025 rounds, and `sscanf` reads from it, whatever
-- stands behind it and whatever its variables held, the next multiple of 128 as the padded size, `q`
-- bytes of each 128 as the size of a block, the size of the file, `k`, `m` and `w`, the padded size
-- again and one round.
pub scan_meta-pad_meta :
    (k q file_size m w : ℕ) (tail : Bytes) (old : Meta)
    → k * q ≡ 128
    → file_size + 128 < 2 ^ 31
    → m < 2 ^ 31
    → w < 2 ^ 31
    → (page : Bytes) × (pad_meta 1025 (meta_text (plan k file_size) k m w) ≡ some page)
      × (length page ≡ 1024)
      × (scan_meta (page ++ tail) old ≡ record {
        origsize = pos ((file_size + 127) / 128 * 128);
        blocksize = pos ((file_size + 127) / 128 * q);
        pre_padded = pos file_size;
        k = pos k;
        m = pos m;
        w = pos w;
        buffersize = pos ((file_size + 127) / 128 * 128);
        readins = pos 1;
      })
scan_meta-pad_meta k q file_size m w tail old h small hm hw =
    let text : Bytes = meta_text (plan k file_size) k m w in
    let room = small_plan k q file_size m w h small hm hw in
    let zeros : Bytes = replicate (1024 - length text) 0 in
    (
      text ++ zeros,
      pad_meta-replicate 1025 (1024 - length text) text (omega arith) (omega arith),
      omega
          (arith, length-append text zeros, length-replicate {A = ℕ} (1024 - length text) 0, room),
      ap (λ t. scan_meta t old) (append_assoc text zeros tail)
          ∙ scan_meta-text (plan k file_size) k m w (zeros ++ tail) old
          ∙ meta_of-plan k q file_size m w h,
    )
