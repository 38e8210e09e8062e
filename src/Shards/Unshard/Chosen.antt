-- ===== src/Shards/Unshard/Chosen.antt =====
-- rs_shard.cpp: some of the files that `rs_shard_fd` writes, in any order.
use race_slothy.Common.{
  ℕ, zero, suc, ◌+◌, ◌*◌, ◌≤◌, ◌<◌, ◌≡◌, refl, ap, ◌∙◌, sym, inl, inr, true, false, Bool-cases,
  some, List, [], ◌∷◌, ◌++◌, arith, Bytes, All, member, ◌==◌, length, length-append, append_assoc,
  drop, replicate, get_or,
}
use race_slothy.Shards.{Md5}
use race_slothy.Shards.Write.{index_bytes}
use race_slothy.Shards.Write.Files.{layout, digests}
use race_slothy.Shards.Validate.{Slot, shard, fread_into, shard_index}
use race_slothy.Shards.Unshard.{absent, found, find_shard, remove_all}
use race_slothy.Shards.Unshard.Gather.{AreShown}

-- The files of the picked shares, counted from 0, opened, with the names that they have.
unfoldable pub chosen : (ℕ → Bytes) → (ℕ → Bytes) → List ℕ → List Slot
chosen names file [] = []
chosen names file (q ∷ picks) = shard (names (q + 1)) (file q) ∷ chosen names file picks

-- Their names.
unfoldable pub chosen_names : (ℕ → Bytes) → List ℕ → List Bytes
chosen_names names [] = []
chosen_names names (q ∷ picks) = names (q + 1) ∷ chosen_names names picks

module _ (names : ℕ → Bytes) (file : ℕ → Bytes) where
  pub length-chosen : (picks : List ℕ) → length (chosen names file picks) ≡ length picks
  unfolding chosen
  length-chosen [] = refl
  length-chosen (q ∷ picks) = ap suc (length-chosen picks)

  pub remove_all-chosen :
      (picks : List ℕ) → remove_all (chosen names file picks) ≡ some (chosen_names names picks)
  unfolding remove_all chosen chosen_names
  remove_all-chosen [] = refl
  remove_all-chosen (q ∷ picks) = rw (remove_all-chosen picks) refl

module _ (names : ℕ → Bytes) (file : ℕ → Bytes) (m : ℕ)
    (indexed : (q : ℕ) → q < m → shard_index (file q) ≡ q + 1) where
  pub find_picked :
      (i : ℕ) (picks : List ℕ)
      → All (λ (q : ℕ). q < m) picks
      → member i picks ≡ true
      → find_shard (i + 1) (chosen names file picks) ≡ found (file i)
  unfolding find_shard chosen member
  find_picked i [] below h = absurd (ground arith)
  find_picked i (q ∷ picks) (here, below) h = elim (Bool-cases (i == q)) [
    | inl e ↦
        let same : i ≡ q = ground arith in
        let hit : (q + 1 == shard_index (file q)) ≡ true = ground (arith, indexed q here) in
        rw (same, hit) refl
    | inr e ↦
        let miss : (i + 1 == shard_index (file q)) ≡ false = ground (arith, indexed q here, e) in
        rw miss (find_picked i picks below (ground (arith, h, e)))
  ]

  pub find_other :
      (i : ℕ) (picks : List ℕ)
      → All (λ (q : ℕ). q < m) picks
      → member i picks ≡ false
      → find_shard (i + 1) (chosen names file picks) ≡ absent
  unfolding find_shard chosen member
  find_other i [] below h = refl
  find_other i (q ∷ picks) (here, below) h =
      let miss : (i + 1 == shard_index (file q)) ≡ false = ground (arith, indexed q here, h) in
      rw miss (find_other i picks below (ground (arith, h)))

  -- What the picked files show of the devices `enc`, if each file has its device at `off`.
  pub AreShown-chosen :
      (off blocksize i : ℕ) (picks : List ℕ) (enc : List Bytes)
      → All (λ (q : ℕ). q < m) picks
      → i + length enc ≤ m
      → ((q : ℕ)
          → q < length enc
          → fread_into blocksize (drop off (file (i + q))) (replicate blocksize 0)
            ≡ get_or enc q [])
      → AreShown off blocksize (chosen names file picks) picks i enc
  unfolding AreShown
  AreShown-chosen off blocksize i picks [] below h reads = tt
  AreShown-chosen off blocksize i picks (x ∷ enc) below h reads = (
    elim (Bool-cases (member i picks)) [
      | inl e ↦
          let self : i + 0 ≡ i = omega arith in
          inr (
            e,
            (
              file i,
              find_picked i picks below e,
              ap (λ (q : ℕ). fread_into blocksize (drop off (file q)) (replicate blocksize 0))
                    (sym self)
                  ∙ reads 0 (omega arith),
            ),
          )
      | inr e ↦ inl (e, find_other i picks below e)
    ],
    AreShown-chosen off blocksize (i + 1) picks enc below (omega arith) (λ q l.
        let next : i + 1 + q ≡ i + suc q = omega arith in
        ap (λ (q : ℕ). fread_into blocksize (drop off (file q)) (replicate blocksize 0)) next
        ∙ reads (suc q) (omega arith)),
  )

pub get-layout :
    (front : Bytes) (n i q : ℕ) (bodies : List Bytes) (hashes : Bytes)
    → length bodies ≡ n
    → q < n
    → get_or (layout (replicate n front) bodies i hashes) q []
      ≡ index_bytes (i + q) ++ (front ++ (get_or bodies q [] ++ hashes))
unfolding layout
get-layout front zero i q bodies hashes h l = absurd (omega arith)
get-layout front (suc n) i q [] hashes h l = absurd (omega arith)
get-layout front (suc n) i zero (b ∷ bodies) hashes h l =
    let self : i ≡ i + 0 = omega arith in
    ap (λ (k : ℕ). index_bytes k ++ (front ++ (b ++ hashes))) self
get-layout front (suc n) i (suc q) (b ∷ bodies) hashes h l =
    let next : i + 1 + q ≡ i + suc q = omega arith in
    get-layout front n (i + 1) q bodies hashes (omega arith) (omega arith)
    ∙ ap (λ (k : ℕ). index_bytes k ++ (front ++ (get_or bodies q [] ++ hashes))) next

-- The digest of a body in the table of them all.
pub digests-split :
    (md5 : Md5) (bodies : List Bytes) (q : ℕ)
    → q < length bodies
    → (before : Bytes) × (after : Bytes) × (length before ≡ 16 * q)
      × (digests md5 bodies
          ≡ before ++ (md5.final (md5.update md5.init (get_or bodies q [])) ++ after))
unfolding digests
digests-split md5 [] q l = absurd (omega arith)
digests-split md5 (b ∷ bodies) zero l = ([], digests md5 bodies, omega arith, refl)
digests-split md5 (b ∷ bodies) (suc q) l =
    let (before, after, size, eq) = digests-split md5 bodies q (omega arith) in
    let digest = md5.final (md5.update md5.init b) in
    let rest = md5.final (md5.update md5.init (get_or bodies q [])) ++ after in
    (
      digest ++ before,
      after,
      omega (arith, length-append digest before, md5.length-final (md5.update md5.init b), size),
      ap (λ (t : Bytes). digest ++ t) eq ∙ sym (append_assoc digest before rest),
    )
