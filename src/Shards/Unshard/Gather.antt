-- ===== src/Shards/Unshard/Gather.antt =====
-- rs_shard.cpp: what `rs_unshard_fd` hands to the decoder, when some of the coding devices are found.
use mathlib.Core.Path.{subst}
use race_slothy.Common.{
  ℕ, zero, suc, ◌+◌, ◌≡◌, refl, ap, ◌⊎◌, inl, inr, true, false, Bool-cases, Option, none, some,
  List, [], ◌∷◌, ◌++◌, arith, Bytes, All, member, if◌then◌else◌, length, length-replicate,
  append_assoc, drop, replicate,
}
use race_slothy.Shards.Validate.{Slot, fread_into}
use race_slothy.Shards.Unshard.{
  AgreeBut, absent, found, find_shard, gather, data_ids, missing_ids, devices,
}

-- The coding devices `enc`, whose indices are those from `i` on, as far as they are picked.
unfoldable pub view : List ℕ → ℕ → List Bytes → List (Option Bytes)
view picks i [] = []
view picks i (x ∷ enc) = (if member i picks then some x else none) ∷ view picks (i + 1) enc

module _ (off blocksize : ℕ) (fds : List Slot) (picks : List ℕ) where
  -- The files show a device if it is picked, and else they have no file of its index.
  abbrev pub IsShown : ℕ → Bytes → Type 0
  IsShown i x =
      ((member i picks ≡ false) × (find_shard (i + 1) fds ≡ absent))
      ⊎ ((member i picks ≡ true)
          × ((file : Bytes) × (find_shard (i + 1) fds ≡ found file)
              × (fread_into blocksize (drop off file) (replicate blocksize 0) ≡ x)))

  unfoldable pub AreShown : ℕ → List Bytes → Type 0
  AreShown i [] = Unit
  AreShown i (x ∷ enc) = IsShown i x × AreShown (i + 1) enc

  pub gather-view :
      (n i : ℕ) (enc : List Bytes)
      → length enc ≡ n
      → AreShown i enc
      → gather n (i + 1) off blocksize fds ≡ some (view picks i enc)
  unfolding gather AreShown view
  gather-view zero i [] h shown = refl
  gather-view zero i (x ∷ enc) h shown = absurd (omega arith)
  gather-view (suc n) i [] h shown = absurd (omega arith)
  gather-view (suc n) i (x ∷ enc) h (inl (out, gone), shown) =
      rw (out, gather, gone) (rw (gather-view n (i + 1) enc (omega arith) shown) refl)
  gather-view (suc n) i (x ∷ enc) h (inr (picked, (file, here, read)), shown) =
      rw (picked, gather, here) (rw (gather-view n (i + 1) enc (omega arith) shown, read) refl)

member_middle : (i : ℕ) (xs ys : List ℕ) → member i (xs ++ i ∷ ys) ≡ true
unfolding member
member_middle i [] ys = ground arith
member_middle i (x ∷ xs) ys = ground (arith, member_middle i xs ys)

-- What is not erased is what it was.
pub AgreeBut-view :
    (blocksize c i : ℕ) (picks before : List ℕ) (enc : List Bytes)
    → AgreeBut
        (before ++ missing_ids c (view picks i enc))
        c
        enc
        (devices blocksize (view picks i enc))
unfolding AgreeBut missing_ids view devices
AgreeBut-view blocksize c i picks before [] = tt
AgreeBut-view blocksize c i picks before (x ∷ enc) = elim (Bool-cases (member i picks)) [
  | inl e ↦ rw e (inr refl, AgreeBut-view blocksize (c + 1) (i + 1) picks before enc)
  | inr e ↦
      let rest = missing_ids (c + 1) (view picks (i + 1) enc) in
      rw e (
        inl (member_middle c before rest),
        subst
            (λ (er : List ℕ). AgreeBut er (c + 1) enc (devices blocksize (view picks (i + 1) enc)))
            (append_assoc before (c ∷ []) rest)
            (AgreeBut-view blocksize (c + 1) (i + 1) picks (before ++ c ∷ []) enc),
      )
]

-- The data devices are all erased, so that nothing is said of them.
pub AgreeBut-data :
    (n i : ℕ) (before after : List ℕ) (xs ys : List Bytes)
    → length xs ≡ n
    → length ys ≡ n
    → AgreeBut (before ++ (data_ids n i ++ after)) i xs ys
unfolding AgreeBut data_ids
AgreeBut-data zero i before after [] [] h k = tt
AgreeBut-data zero i before after [] (y ∷ ys) h k = absurd (omega arith)
AgreeBut-data zero i before after (x ∷ xs) ys h k = absurd (omega arith)
AgreeBut-data (suc n) i before after [] ys h k = absurd (omega arith)
AgreeBut-data (suc n) i before after (x ∷ xs) [] h k = absurd (omega arith)
AgreeBut-data (suc n) i before after (x ∷ xs) (y ∷ ys) h k = (
  inl (member_middle i before (data_ids n (i + 1) ++ after)),
  subst (λ (er : List ℕ). AgreeBut er (i + 1) xs ys)
      (append_assoc before (i ∷ []) (data_ids n (i + 1) ++ after))
      (AgreeBut-data n (i + 1) (before ++ i ∷ []) after xs ys (omega arith) (omega arith)),
)

pub length-data_ids : (n i : ℕ) → length (data_ids n i) ≡ n
unfolding data_ids
length-data_ids zero i = refl
length-data_ids (suc n) i = ap suc (length-data_ids n (i + 1))

pub devices_sizes :
    (blocksize i : ℕ) (picks : List ℕ) (enc : List Bytes)
    → All (λ (b : Bytes). length b ≡ blocksize) enc
    → (length (devices blocksize (view picks i enc)) ≡ length enc)
      × All (λ (b : Bytes). length b ≡ blocksize) (devices blocksize (view picks i enc))
unfolding devices view
devices_sizes blocksize i picks [] h = (refl, tt)
devices_sizes blocksize i picks (x ∷ enc) (size, h) =
    let (count, sizes) = devices_sizes blocksize (i + 1) picks enc h in
    elim (Bool-cases (member i picks)) [
      | inl e ↦ rw e (ap suc count, (size, sizes))
      | inr e ↦ rw e (ap suc count, (length-replicate {A = ℕ} blocksize 0, sizes))
    ]
