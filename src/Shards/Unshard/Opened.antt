-- ===== src/Shards/Unshard/Opened.antt =====
-- rs_shard.cpp: the descriptors that `rs_unshard_fd` reads and removes.
use race_slothy.Common.{
  ℕ, zero, suc, ◌+◌, ◌≡◌, refl, ap, ◌⊎◌, inl, inr, Bool-cases, Option, none, some, List, [], ◌∷◌,
  Bytes, All, ◌==◌, length, take, drop, replicate,
}
use race_slothy.Shards.{Md5}
use race_slothy.Shards.Validate.{
  Slot, missing, unopened, shard, Vars, Validated, fread_into, shard_index, removed,
  validate_shards,
}
use race_slothy.Shards.Validate.Slots.{IsOpened, validate_shards_slots}
use race_slothy.Shards.Unshard.{absent, broken, found, Found, find_shard, gather, remove_all}

IsRead : Found → Type 0
IsRead absent = Unit
IsRead broken = ⊥
IsRead (found file) = Unit

find_opened : (i : ℕ) (fds : List Slot) → All IsOpened fds → IsRead (find_shard i fds)
unfolding find_shard IsOpened IsRead
find_opened i [] opened = tt
find_opened i (missing ∷ fds) (none_such, opened) = absurd none_such
find_opened i (unopened name ∷ fds) (none_such, opened) = absurd none_such
find_opened i (shard name file ∷ fds) (is_one, opened) = elim (Bool-cases (i == shard_index file)) [
  | inl e ↦ rw e tt
  | inr e ↦ rw e (find_opened i fds opened)
]

found_cases : (f : Found) → IsRead f → (f ≡ absent) ⊎ ((file : Bytes) × (f ≡ found file))
unfolding IsRead
found_cases absent h = inl refl
found_cases broken h = absurd h
found_cases (found file) h = inr (file, refl)

gather_opened :
    (n i off blocksize : ℕ) (fds : List Slot)
    → All IsOpened fds
    → (coding : List (Option Bytes)) × (gather n i off blocksize fds ≡ some coding)
      × (length coding ≡ n)
unfolding gather
gather_opened zero i off blocksize fds opened = ([], refl, refl)
gather_opened (suc n) i off blocksize fds opened =
    let (coding, eq, count) = gather_opened n (i + 1) off blocksize fds opened in
    elim (found_cases (find_shard i fds) (find_opened i fds opened)) [
      | inl none_there ↦ (none ∷ coding, rw (gather, none_there) (rw eq refl), ap suc count)
      | inr (file, there) ↦ (
        some (fread_into blocksize (drop off file) (replicate blocksize 0)) ∷ coding,
        rw (gather, there) (rw eq refl),
        ap suc count,
      )
    ]

remove_opened : (fds : List Slot) → All IsOpened fds → remove_all fds ≡ some (removed fds)
unfolding remove_all removed IsOpened
remove_opened [] opened = refl
remove_opened (missing ∷ fds) (none_such, opened) = absurd none_such
remove_opened (unopened name ∷ fds) (none_such, opened) = absurd none_such
remove_opened (shard name file ∷ fds) (is_one, opened) = rw (remove_opened fds opened) refl

-- Whatever the files are, if `validate_shards` returns: reading any number of coding devices from
-- the files that it counts as good follows no null pointer and gives one entry for each device, and
-- `rs_unshard_fd` can remove all of these files, each under its name.
pub gather-validate_shards :
    (md5 : Md5) (fds : List Slot) (num_shares : ℕ) (garbage : Bytes) (vars : Vars) (v : Validated)
    (n off blocksize : ℕ)
    → validate_shards md5 fds num_shares garbage vars ≡ some v
    → let good = take v.num_good v.fds in
      ((coding : List (Option Bytes)) × (gather n 1 off blocksize good ≡ some coding)
        × (length coding ≡ n))
      × (remove_all good ≡ some (removed good))
gather-validate_shards md5 fds num_shares garbage vars v n off blocksize e =
    let (same, few, opened) = validate_shards_slots md5 fds num_shares garbage vars v e in
    (gather_opened n 1 off blocksize (take v.num_good v.fds) opened, remove_opened _ opened)
