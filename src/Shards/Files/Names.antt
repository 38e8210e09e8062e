-- ===== src/Shards/Files/Names.antt =====
-- rs_shard.cpp: the files that `rs_shard_file` leaves.
use race_slothy.Common.{
  ℕ, zero, suc, ◌+◌, ◌^◌, ◌<◌, ◌≤◌, ◌≡◌, refl, sym, ap, ◌∙◌, false, some, List, [], ◌∷◌, ◌++◌,
  arith, Bytes, Bool-cases, inl, inr, bytes_eq, bytes_eq_refl, bytes_eq_sound, length, get_elem?,
  take_all, drop, drop_left, length-append, print_nat, print_nat_injective, length-print_nat_seven,
  Malloc,
}
use race_slothy.Shards.{Md5, Jerasure}
use race_slothy.Shards.Write.{shards, rs_shard_fd}
use race_slothy.Shards.Files.{Store, look_up, put, shard_name, put_shards, rs_shard_file}

pub look_up-put :
    (store : Store) (name file : Bytes) → look_up (put store name file) name ≡ some file
unfolding look_up put
look_up-put [] name file = rw (bytes_eq_refl name) refl
look_up-put ((k, old) ∷ store) name file = elim (Bool-cases (bytes_eq k name)) [
  | inl e ↦ rw (e, look_up, e) refl
  | inr e ↦ rw (e, look_up, e, look_up-put store name file) refl
]

pub look_up-put_other :
    (store : Store) (name other file : Bytes)
    → bytes_eq name other ≡ false
    → look_up (put store name file) other ≡ look_up store other
unfolding look_up put
look_up-put_other [] name other file h = rw h refl
look_up-put_other ((k, old) ∷ store) name other file h = elim (Bool-cases (bytes_eq k name)) [
  | inl e ↦
      let same : k ≡ name = bytes_eq_sound k name e in
      let differ : bytes_eq k other ≡ false = rw same h in rw (e, look_up, differ) refl
  | inr e ↦ rw (e, look_up, look_up-put_other store name other file h) refl
]

-- A name with a number below 10 ^ 7 is not cut.
pub whole_name : (prefix : Bytes) (i : ℕ) → i < 10 ^ 7 → shard_name prefix i ≡ prefix ++ print_nat i
unfolding shard_name
whole_name prefix i h =
    take_all (length prefix + 7) (prefix ++ print_nat i)
      (omega (arith, length-append prefix (print_nat i), length-print_nat_seven i h))

pub names_differ :
    (prefix : Bytes) (i j : ℕ)
    → ¬ (i ≡ j)
    → i < 10 ^ 7
    → j < 10 ^ 7
    → bytes_eq (shard_name prefix i) (shard_name prefix j) ≡ false
names_differ prefix i j h small_i small =
    elim (Bool-cases (bytes_eq (shard_name prefix i) (shard_name prefix j))) [
      | inr e ↦ e
      | inl e ↦
          let same : prefix ++ print_nat i ≡ prefix ++ print_nat j =
            sym (whole_name prefix i small_i)
            ∙ bytes_eq_sound (shard_name prefix i) (shard_name prefix j) e
            ∙ whole_name prefix j small in
          let digits : print_nat i ≡ print_nat j =
            sym (drop_left prefix (print_nat i) refl)
            ∙ ap (λ (t : Bytes). drop (length prefix) t) same
            ∙ drop_left prefix (print_nat j) refl in
          absurd (h (print_nat_injective i j digits))
    ]

-- Files that are put later do not touch this one.
later_kept :
    (files : List Bytes) (store : Store) (prefix : Bytes) (i j : ℕ)
    → i < j
    → j + length files ≤ 10 ^ 7
    → look_up (put_shards store prefix j files) (shard_name prefix i)
      ≡ look_up store (shard_name prefix i)
unfolding put_shards
later_kept [] store prefix i j h small = refl
later_kept (f ∷ files) store prefix i j h small =
    later_kept files (put store (shard_name prefix j) f) prefix i (j + 1) (omega arith)
      (omega arith)
    ∙ look_up-put_other store (shard_name prefix j) (shard_name prefix i) f
        (names_differ prefix j i (λ e. omega arith) (omega arith) (omega arith))

pub put_found :
    (files : List Bytes) (store : Store) (prefix : Bytes) (first i : ℕ) (f : Bytes)
    → first + length files ≤ 10 ^ 7
    → get_elem? files i ≡ some f
    → look_up (put_shards store prefix first files) (shard_name prefix (first + i)) ≡ some f
unfolding put_shards
put_found [] store prefix first i f small h = absurd cc
put_found (x ∷ files) store prefix first zero f small h =
    let here : first + 0 ≡ first = omega arith in
    rw here (
      later_kept files (put store (shard_name prefix first) x) prefix first (first + 1)
        (omega arith) (omega arith)
      ∙ look_up-put store (shard_name prefix first) x
      ∙ h)
put_found (x ∷ files) store prefix first (suc i) f small h =
    let next : first + suc i ≡ first + 1 + i = omega arith in
    rw next (
      put_found files (put store (shard_name prefix first) x) prefix (first + 1) i f (omega arith)
        h)

get_elem_inside :
    (files : List Bytes) (i : ℕ) (f : Bytes) → get_elem? files i ≡ some f → i < length files
get_elem_inside [] i f h = absurd cc
get_elem_inside (x ∷ files) zero f h = omega arith
get_elem_inside (x ∷ files) (suc i) f h = omega (arith, get_elem_inside files i f h)

-- With a file that is on the disk, and that `rs_shard_fd` gives shards for.
pub rs_shard_file-shards :
    (md5 : Md5) (j : Jerasure) (heap : Malloc) (store : Store) (filename prefix file : Bytes)
    (threshold num_shares : ℕ) (files : List Bytes)
    → look_up store filename ≡ some file
    → rs_shard_fd md5 j heap (some file) threshold num_shares ≡ shards files
    → rs_shard_file md5 j heap store filename prefix threshold num_shares
      ≡ (shards files, put_shards store prefix 0 files)
unfolding rs_shard_file
rs_shard_file-shards md5 j heap store filename prefix file threshold num_shares files h e =
    rw (rs_shard_file, h, e) (rw h refl)

-- When `rs_shard_fd` of a file that is on the disk gives shards, 10 ^ 7 at most, `rs_shard_file`
-- leaves each of them on the disk under the prefix and its number, from 0 on.
pub rs_shard_file-look_up :
    (md5 : Md5) (j : Jerasure) (heap : Malloc) (store : Store) (filename prefix file f : Bytes)
    (threshold num_shares i : ℕ) (files : List Bytes)
    → look_up store filename ≡ some file
    → rs_shard_fd md5 j heap (some file) threshold num_shares ≡ shards files
    → length files ≤ 10 ^ 7
    → get_elem? files i ≡ some f
    → look_up
        (rs_shard_file md5 j heap store filename prefix threshold num_shares).1
        (prefix ++ print_nat i)
      ≡ some f
rs_shard_file-look_up md5 j heap store filename prefix file f threshold num_shares i files h e n g =
    let ran =
      rs_shard_file-shards md5 j heap store filename prefix file threshold num_shares files h e in
    let number : 0 + i ≡ i = omega arith in
    let name : shard_name prefix (0 + i) ≡ prefix ++ print_nat i =
      rw number (whole_name prefix i (omega (arith, get_elem_inside files i f g))) in
    rw (ran, ← name) (put_found files store prefix 0 i f (omega arith) g)
