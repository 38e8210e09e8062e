-- ===== src/Shards/Unshard/Restore.antt =====
-- rs_shard.cpp: reading and decoding with enough coding devices, and the bytes that are written.
use race_slothy.Common.{
  ℕ, suc, ◌+◌, ◌*◌, ◌^◌, ◌≤◌, ◌<◌, ◌≡◌, refl, ap, ◌∙◌, true, false, List, [], ◌∷◌, ◌++◌, arith,
  Bytes, IsByte, All, leb, ◌==◌, length, length-append, length-replicate, All-replicate, replicate,
  flatten,
}
use race_slothy.Shards.{IsBlocks, Jerasure}
use race_slothy.Shards.Validate.{Slot}
use race_slothy.Shards.Unshard.{
  Decoder, data_ids, missing_ids, devices, decoded, decode_phase, assemble,
}
use race_slothy.Shards.Unshard.Gather.{
  view, AreShown, gather-view, AgreeBut-view, AgreeBut-data, length-data_ids, devices_sizes,
}
use race_slothy.Shards.Unshard.Count.{IsDistinct, length-missing_ids}

-- With at least `k` different devices found, and shown as they were coded, the decoder restores
-- the data devices.
pub decode_phase-restores :
    (j : Jerasure) (dec : Decoder j) (k m off blocksize : ℕ) (fds : List Slot) (picks : List ℕ)
    (blocks : List Bytes)
    → 0 < k
    → k + m < 2 ^ 32
    → IsBlocks k blocksize blocks
    → All (λ (b : Bytes). All IsByte b) blocks
    → IsDistinct picks
    → All (λ (p : ℕ). p < m) picks
    → k ≤ length picks
    → AreShown off blocksize fds picks 0 (j.encode k m 32 (j.vandermonde k m 32) blocks blocksize)
    → decode_phase j dec k m 32 off blocksize fds ≡ decoded blocks
unfolding decode_phase
decode_phase-restores j dec k m off blocksize fds picks blocks kpos fits isb bytes distinct below
      enough shown =
    let enc = j.encode k m 32 (j.vandermonde k m 32) blocks blocksize in
    let coding = view picks 0 enc in
    let erasures = data_ids k 0 ++ missing_ids k coding in
    let (enc_count, enc_sizes, whole) = j.encode-IsBlocks k m blocksize blocks kpos fits isb in
    let missing : length (missing_ids k coding) + length picks ≡ length enc =
      length-missing_ids k picks enc distinct (rw enc_count below) in
    let erased : length erasures ≡ k + length (missing_ids k coding) =
      length-append (data_ids k 0) (missing_ids k coding)
      ∙ ap (λ (n : ℕ). n + length (missing_ids k coding)) (length-data_ids k 0) in
    let room : (length erasures == k + m) ≡ false =
      ground (arith, erased, missing, enc_count, enough, kpos) in
    let (dev_count, dev_sizes) = devices_sizes blocksize 0 picks enc enc_sizes in
    let restored =
      dec.restores k m blocksize erasures blocks (replicate k (replicate blocksize 0))
        (devices blocksize coding) kpos fits isb bytes
        (
          length-replicate k (replicate blocksize 0),
          All-replicate (λ (b : Bytes). length b ≡ blocksize) k (replicate blocksize 0)
              (length-replicate {A = ℕ} blocksize 0),
          whole,
        )
        (dev_count ∙ enc_count, dev_sizes, whole)
        (omega (arith, erased, missing, enc_count, enough))
        (AgreeBut-data k 0 [] (missing_ids k coding) blocks (replicate k (replicate blocksize 0))
          isb.0 (length-replicate k (replicate blocksize 0)))
        (AgreeBut-view blocksize k 0 picks (data_ids k 0) enc) in
    rw (decode_phase, gather-view off blocksize fds picks m 0 enc enc_count shown)
      (rw (room, restored) refl)

-- Devices that make up `origsize` bytes are written whole.
pub assemble-flatten :
    (origsize blocksize total : ℕ) (blocks : List Bytes)
    → All (λ (b : Bytes). length b ≡ blocksize) blocks
    → total + length blocks * blocksize ≤ origsize
    → assemble origsize blocksize total blocks ≡ flatten blocks
unfolding assemble
assemble-flatten origsize blocksize total [] sizes h = refl
assemble-flatten origsize blocksize total (d ∷ blocks) (size, sizes) h =
    let product : suc (length blocks) * blocksize ≡ blocksize + length blocks * blocksize =
      grind arith in
    let fits : leb (total + blocksize) origsize ≡ true = ground (arith, product) in
    rw fits (
      ap (λ (t : Bytes). d ++ t)
        (assemble-flatten origsize blocksize (total + blocksize) blocks sizes
          (omega (arith, product))))
