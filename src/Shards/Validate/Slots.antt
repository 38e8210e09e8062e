-- ===== src/Shards/Validate/Slots.antt =====
-- rs_shard.cpp: what `validate_shards` leaves in `fds`, whatever the files hold.
use mathlib.Core.Path.{subst}
use race_slothy.Common.{
  ℕ, suc, ◌+◌, ◌-◌, ◌*◌, ◌≤◌, ◌≡◌, refl, ap, Bool, Bool-cases, inl, inr, true, false, Option, none,
  some, List, [], ◌∷◌, ◌++◌, arith, Bytes, ltb, if◌then◌else◌, length, take, replicate, All,
  length-append, length-replicate, take_left, take_all,
}
use race_slothy.Shards.{Md5}
use race_slothy.Shards.Validate.{
  Slot, missing, unopened, shard, Vars, Validated, true_hash_val, check_file, sort_files, removed,
  validate_shards,
}

-- A slot with a file that has been opened.
unfoldable pub IsOpened : Slot → Type 0
IsOpened missing = ⊥
IsOpened (unopened name) = ⊥
IsOpened (shard name file) = Unit

-- The good slots and the bad ones make up the slots, the good ones are of opened files, and
-- without a bad one they are the slots in their order.
abbrev IsSplit : List Slot → List Slot × List Slot → Type 0
IsSplit fds r =
    (length r.0 + length r.1 ≡ length fds) × All IsOpened r.0 × (length r.1 ≡ 0 → r.0 ≡ fds)

abbrev AreSplit : List Slot → Option (List Slot × List Slot) → Type 0
AreSplit fds none = Unit
AreSplit fds (some r) = IsSplit fds r

bad_split :
    (s : Slot) (fds : List Slot) (res : Option (List Slot × List Slot))
    → AreSplit fds res
    → AreSplit (s ∷ fds) (elim res [ none ↦ none | some r ↦ some (r.0, s ∷ r.1) ])
bad_split s fds none h = tt
bad_split s fds (some r) (count, opened, all) =
    (omega (arith, count), opened, λ e. absurd (omega (arith, e)))

good_split :
    (name file : Bytes) (fds : List Slot) (res : Option (List Slot × List Slot))
    → AreSplit fds res
    → AreSplit
        (shard name file ∷ fds)
        (elim res [ none ↦ none | some r ↦ some (shard name file ∷ r.0, r.1) ])
unfolding IsOpened
good_split name file fds none h = tt
good_split name file fds (some r) (count, opened, all) =
    (omega (arith, count), (tt, opened), λ e. ap (λ (t : List Slot). shard name file ∷ t) (all e))

either_split :
    (good : Bool) (name file : Bytes) (fds : List Slot) (res : Option (List Slot × List Slot))
    → AreSplit fds res
    → AreSplit (shard name file ∷ fds) (elim res [
      | none ↦ none
      | some r ↦
          if good then some (shard name file ∷ r.0, r.1) else some (r.0, shard name file ∷ r.1)
    ])
either_split true name file fds none h = tt
either_split false name file fds none h = tt
either_split true name file fds (some r) h = good_split name file fds (some r) h
either_split false name file fds (some r) h = bad_split (shard name file) fds (some r) h

module _ (md5 : Md5) (num_shares : ℕ) (trusted : Bytes) where
  checked_split :
      (name file : Bytes) (fds : List Slot) (c : Option (Bool × Vars))
      → ((v : Vars) → AreSplit fds (sort_files md5 num_shares trusted fds v))
      → AreSplit (shard name file ∷ fds) (elim c [
        | none ↦ none
        | some c ↦ elim (sort_files md5 num_shares trusted fds c.1) [
          | none ↦ none
          | some r ↦
              if c.0 then some (shard name file ∷ r.0, r.1) else some (r.0, shard name file ∷ r.1)
        ]
      ])
  checked_split name file fds none h = tt
  checked_split name file fds (some c) h =
      either_split c.0 name file fds (sort_files md5 num_shares trusted fds c.1) (h c.1)

  files_split :
      (fds : List Slot) (vars : Vars) → AreSplit fds (sort_files md5 num_shares trusted fds vars)
  unfolding sort_files
  files_split [] vars = (refl, tt, λ e. refl)
  files_split (missing ∷ fds) vars = bad_split missing fds _ (files_split fds vars)
  files_split (unopened name ∷ fds) vars = bad_split (unopened name) fds _ (files_split fds vars)
  files_split (shard name file ∷ fds) vars =
      elim (Bool-cases (ltb (length file) (16 * num_shares))) [
        | inl e ↦ rw e (bad_split (shard name file) fds _ (files_split fds vars))
        | inr e ↦ rw e (
            checked_split name file fds (check_file md5 num_shares trusted vars file)
              (λ v. files_split fds v))
      ]

-- As many slots as before, of which the number that is returned come first and are opened files.
abbrev IsKept : List Slot → Validated → Type 0
IsKept fds v =
    (length v.fds ≡ length fds) × (v.num_good ≤ length fds) × All IsOpened (take v.num_good v.fds)

-- What the end of `validate_shards` makes of the good slots and the bad ones.
abbrev left_over : List Slot → List Slot → List Slot → Validated
left_over fds good bad = record {
  fds = if ltb 0 (length bad) then good ++ replicate (length fds - length good) missing else fds;
  num_good = length good;
  gone = removed bad;
}

left_over-IsKept :
    (fds good bad : List Slot) → IsSplit fds (good, bad) → IsKept fds (left_over fds good bad)
left_over-IsKept fds good [] (count, opened, all) =
    rw (← all refl) (refl, omega arith, rw (take_all (length good) good (omega arith)) opened)
left_over-IsKept fds good (b ∷ bad) (count, opened, all) =
    let some_bad : ltb 0 (suc (length bad)) ≡ true = ground arith in
    let rest = replicate (length fds - length good) missing in
    rw some_bad (
      omega (
        arith,
        length-append good rest,
        length-replicate {A = Slot} (length fds - length good) missing,
        count,
      ),
      omega (arith, count),
      rw (take_left good rest refl) opened,
    )

ended-IsKept :
    (fds : List Slot) (res : Option (List Slot × List Slot)) (v : Validated)
    → AreSplit fds res
    → (elim res [ none ↦ none | some r ↦ some (left_over fds r.0 r.1) ]) ≡ some v
    → IsKept fds v
ended-IsKept fds none v h e = absurd cc
ended-IsKept fds (some r) v h e =
    let same : left_over fds r.0 r.1 ≡ v =
      ap (λ (o : Option Validated). elim o [ none ↦ v | some x ↦ x ]) e in
    subst (IsKept fds) same (left_over-IsKept fds r.0 r.1 h)

-- Whatever the files hold: when `validate_shards` returns a number, there are as many slots as
-- before, the number is not larger, and that many slots at the front are files that were opened.
pub validate_shards_slots :
    (md5 : Md5) (fds : List Slot) (num_shares : ℕ) (garbage : Bytes) (vars : Vars) (v : Validated)
    → validate_shards md5 fds num_shares garbage vars ≡ some v
    → (length v.fds ≡ length fds) × (v.num_good ≤ length fds) × All IsOpened (take v.num_good v.fds)
unfolding validate_shards
validate_shards_slots md5 fds num_shares garbage vars v e =
    let trusted = true_hash_val (16 * num_shares) fds garbage in
    ended-IsKept fds (sort_files md5 num_shares trusted fds vars) v
      (files_split md5 num_shares trusted fds vars) e
