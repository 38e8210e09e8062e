-- ===== src/Shards/Reopen/RoundTrip.antt =====
-- rs_shard.cpp: `rs_unshard_file` on the files that `rs_shard_file` leaves.
use race_slothy.Common.{
  ℕ, zero, suc, ◌+◌, ◌^◌, ◌≤◌, ◌<◌, ◌≡◌, refl, ap, ◌∙◌, none, some, List, [], ◌∷◌, ◌++◌, arith,
  Bytes, IsByte, All, map, length, false, bytes_eq, take, take_left, get_or, get_elem-get_or, ℤ,
  Malloc,
}
use race_slothy.Shards.{Md5, Jerasure}
use race_slothy.Shards.Write.{Sharded}
use race_slothy.Shards.Files.{Store, look_up, put, shard_name, put_shards, rs_shard_file}
use race_slothy.Shards.Files.Names.{put_found, rs_shard_file-shards}
use race_slothy.Shards.Validate.{Slot, missing, unopened, shard, Vars}
use race_slothy.Shards.Validate.Accepts.{FirstColumnOnes, writes}
use race_slothy.Shards.Unshard.{Decoder, Output, recovered}
use race_slothy.Shards.Unshard.Chosen.{chosen, length-chosen}
use race_slothy.Shards.Unshard.Recover.{output, length-output, recovers}
use race_slothy.Pipeline.Present.{
  present, name_of, name_of_next, chosen_names-map, present_below, present-IsDistinct,
  length-present,
}
use race_slothy.Shards.Reopen.{named_slots, num_files, unlink_all, content_or_new, rs_unshard_file}

num_files-append : (xs ys : List Slot) → num_files (xs ++ ys) ≡ num_files xs + num_files ys
unfolding num_files
num_files-append [] ys = omega arith
num_files-append (missing ∷ xs) ys = num_files-append xs ys
num_files-append (unopened name ∷ xs) ys = num_files-append xs ys
num_files-append (shard name file ∷ xs) ys = omega (arith, num_files-append xs ys)

num_files-chosen :
    (names : ℕ → Bytes) (content : ℕ → Bytes) (picks : List ℕ)
    → num_files (chosen names content picks) ≡ length picks
unfolding num_files chosen
num_files-chosen names content [] = refl
num_files-chosen names content (q ∷ picks) = ap suc (num_files-chosen names content picks)

below_more :
    (c m : ℕ) (picks : List ℕ) → c ≤ m → All (λ (q : ℕ). q < c) picks → All (λ (q : ℕ). q < m) picks
below_more c m [] h below = tt
below_more c m (q ∷ picks) h (here, below) = (omega arith, below_more c m picks h below)

module _ (shard_prefix : Bytes) (store : Store) where
  named_slots-add :
      (c d i : ℕ)
      → named_slots (c + d) i shard_prefix store
        ≡ named_slots c i shard_prefix store ++ named_slots d (i + c) shard_prefix store
  unfolding named_slots
  named_slots-add zero d i =
      let none_first : 0 + d ≡ d = omega arith in
      let from : i + 0 ≡ i = omega arith in rw (none_first, from) refl
  named_slots-add (suc c) d i =
      let count : suc c + d ≡ suc (c + d) = omega arith in
      let from : i + suc c ≡ i + 1 + c = omega arith in
      rw (count, from, named_slots, named_slots-add c d (i + 1)) refl

  -- Files that are there are opened.
  named_slots-chosen :
      (n i : ℕ) (content : ℕ → Bytes)
      → ((q : ℕ) → i ≤ q → q < i + n → look_up store (shard_name shard_prefix q) ≡ some (content q))
      → named_slots n i shard_prefix store
        ≡ chosen (name_of shard_prefix) content (present n i shard_prefix store)
  unfolding named_slots present chosen
  named_slots-chosen zero i content h = refl
  named_slots-chosen (suc n) i content h =
      let rest =
        named_slots-chosen n (i + 1) content (λ q low high. h q (omega arith) (omega arith)) in
      rw (named_slots, present, chosen, h i (omega arith) (omega arith))
        (rw (rest, name_of_next shard_prefix i) refl)

  num_files-gone :
      (n i : ℕ)
      → ((q : ℕ) → i ≤ q → q < i + n → look_up store (shard_name shard_prefix q) ≡ none)
      → num_files (named_slots n i shard_prefix store) ≡ 0
  unfolding named_slots num_files
  num_files-gone zero i h = refl
  num_files-gone (suc n) i h =
      rw (named_slots, num_files, h i (omega arith) (omega arith))
        (num_files-gone n (i + 1) (λ q low high. h q (omega arith) (omega arith)))

  -- If the first `c` of the files are there and the others are not, the first are passed on.
  first_passed :
      (c d : ℕ) (content : ℕ → Bytes)
      → ((q : ℕ) → q < c → look_up store (shard_name shard_prefix q) ≡ some (content q))
      → ((q : ℕ) → c ≤ q → q < c + d → look_up store (shard_name shard_prefix q) ≡ none)
      → take
          (num_files (named_slots (c + d) 0 shard_prefix store))
          (named_slots (c + d) 0 shard_prefix store)
        ≡ chosen (name_of shard_prefix) content (present c 0 shard_prefix store)
  first_passed c d content there gone =
      let picks = present c 0 shard_prefix store in
      let first = chosen (name_of shard_prefix) content picks in
      let behind = named_slots d (0 + c) shard_prefix store in
      let all_there : length picks ≡ c =
        length-present shard_prefix store c 0 content (λ q low high. there q (omega arith)) in
      let slots : named_slots (c + d) 0 shard_prefix store ≡ first ++ behind =
        named_slots-add c d 0
        ∙ ap (λ (s : List Slot). s ++ behind)
            (named_slots-chosen c 0 content (λ q low high. there q (omega arith))) in
      let none_behind : num_files behind ≡ 0 =
        num_files-gone d (0 + c) (λ q low high. gone q (omega arith) (omega arith)) in
      let count : num_files (first ++ behind) ≡ length first = omega (
        arith,
        num_files-append first behind,
        num_files-chosen (name_of shard_prefix) content picks,
        length-chosen (name_of shard_prefix) content picks,
        none_behind,
      ) in
      rw (slots, count) (take_left first behind refl)

module _ (md5 : Md5) (j : Jerasure) (dec : Decoder j) (heap : Malloc) (c d : ℕ) (file : Bytes)
    (ones : FirstColumnOnes j) (shares : c + d < 2 ^ 16) (small : length file + 128 < 2 ^ 31)
    (file_bytes : All IsByte file) (heap_bytes : (n : ℕ) → All IsByte (heap.fresh n))
    (shard_prefix : Bytes) where
  abbrev files : List Bytes
  files =
      output md5 j dec heap (c + d) file ones shares small file_bytes heap_bytes
        (name_of shard_prefix)

  -- Each shard is on the disk after `rs_shard_file`.
  stored_there :
      (store : Store) (filename : Bytes) (q : ℕ)
      → look_up store filename ≡ some file
      → q < c + d
      → look_up
          (rs_shard_file md5 j heap store filename shard_prefix 8 (c + d)).1
          (shard_name shard_prefix q)
        ≡ some (get_or files q [])
  stored_there store filename q there below =
      let count : length files ≡ c + d =
        length-output md5 j dec heap (c + d) file ones shares small file_bytes heap_bytes
          (name_of shard_prefix) in
      let ran =
        rs_shard_file-shards md5 j heap store filename shard_prefix file 8 (c + d) files there
          (writes md5 j heap (c + d) file ones shares small) in
      let number : q ≡ 0 + q = omega arith in
      ap (λ (r : Sharded × Store). look_up r.1 (shard_name shard_prefix q)) ran
      ∙ ap (λ (k : ℕ). look_up (put_shards store shard_prefix 0 files) (shard_name shard_prefix k))
          number
      ∙ put_found files store shard_prefix 0 q (get_or files q []) (omega (arith, count))
          (get_elem-get_or files q [] (omega (arith, count)))

  -- With threshold 8, fewer than 2 ^ 16 shares, a file on the disk of fewer than 2 ^ 31 - 128 bytes,
  -- `malloc` whose blocks hold bytes, and a coding matrix whose first column is all ones: when
  -- `rs_shard_file` has sharded the file, and the first eight shards or more are still on a disk while
  -- the others are gone, `rs_unshard_file` with the same prefix succeeds. It leaves in the output file
  -- exactly the file that was sharded, whatever stood there before, and removes the shards. Neither
  -- the name of the file nor that of the output file is the name of one of the shards.
  pub rs_unshard_file-rs_shard_file :
      (store kept : Store) (filename outfile garbage : Bytes) (vars : Vars) (pre_padded : ℤ)
      → look_up store filename ≡ some file
      → ((q : ℕ) → q < c + d → bytes_eq (shard_name shard_prefix q) filename ≡ false)
      → ((q : ℕ) → q < c + d → bytes_eq (shard_name shard_prefix q) outfile ≡ false)
      → ((q : ℕ)
          → q < c
          → look_up kept (shard_name shard_prefix q)
            ≡ look_up
                (rs_shard_file md5 j heap store filename shard_prefix 8 (c + d)).1
                (shard_name shard_prefix q))
      → ((q : ℕ) → c ≤ q → q < c + d → look_up kept (shard_name shard_prefix q) ≡ none)
      → 8 ≤ c
      → rs_unshard_file md5 j dec kept shard_prefix outfile 8 (c + d) garbage vars pre_padded ≡ (
        recovered file (map (shard_name shard_prefix) (present c 0 shard_prefix kept)),
        unlink_all
            (put kept outfile file)
            (map (shard_name shard_prefix) (present c 0 shard_prefix kept)),
      )
  unfolding rs_unshard_file
  rs_unshard_file-rs_shard_file store kept filename outfile garbage vars pre_padded there
        input_apart output_apart same gone enough =
      let picks = present c 0 shard_prefix kept in
      let content : ℕ → Bytes = λ q. get_or files q [] in
      let held : (q : ℕ) → q < c → look_up kept (shard_name shard_prefix q) ≡ some (content q) =
        λ q below. same q below ∙ stored_there store filename q there (omega arith) in
      let count : length picks ≡ c =
        length-present shard_prefix kept c 0 content (λ q low high. held q (omega arith)) in
      let out : Output = record { old = content_or_new (look_up kept outfile); at = 0 } in
      rw
        (
          rs_unshard_file,
          first_passed shard_prefix kept c d content held gone,
          recovers md5 j dec heap (c + d) file ones shares small file_bytes heap_bytes
              (name_of shard_prefix) picks garbage vars pre_padded out
              (present-IsDistinct shard_prefix kept c 0)
              (below_more c (c + d) picks (omega arith) (present_below shard_prefix kept c))
              (omega (arith, count)) refl,
          chosen_names-map shard_prefix picks,
        )
        refl
