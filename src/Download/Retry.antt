-- ===== src/Download/Retry.antt =====
-- Which try gives the file, how long the program sleeps before it, and which files are left.
use race_slothy.Common.{
  ℕ, zero, suc, ◌+◌, ◌-◌, ◌≤◌, ◌*◌, ◌^◌, ◌<◌, ◌≡◌, refl, sym, ◌∙◌, true, false, none, some, List,
  [], ◌∷◌, ◌++◌, arith, Bytes, ◌==◌, flatten, append_assoc, append-nil,
}
use mathlib.Core.Path.{subst}
use native.Mathlib.Decide.{dec_lt}
use race_slothy.Download.{
  Disk, Reply, no_handle, unreachable, answered, get_fd_archdep, write_data, write_parts,
  remove_file, download, Retried, retry_loop, download_with_retry, download_with_retry_hardcoded,
}

-- A reply with which `download` gives a file, and one with which it does not.
abbrev pub IsGood : Reply → Type 0
IsGood no_handle = ⊥
IsGood unreachable = ⊥
IsGood (answered code parts) = code ≡ 200

abbrev pub body_of : Reply → Bytes
body_of no_handle = []
body_of unreachable = []
body_of (answered code parts) = flatten parts

head_written :
    (fd : ℕ) (parts : List Bytes) (content : Bytes) (files : List (ℕ × Bytes))
    → write_parts fd parts ((fd, content) ∷ files) ≡ (fd, content ++ flatten parts) ∷ files
unfolding write_parts write_data
head_written fd [] content files = rw append-nil refl
head_written fd (part ∷ parts) content files =
    let same : (fd == fd) ≡ true = ground arith in
    rw (same, head_written fd parts (content ++ part) files, append_assoc) refl

head_removed :
    (fd : ℕ) (content : Bytes) (files : List (ℕ × Bytes))
    → remove_file fd ((fd, content) ∷ files) ≡ files
unfolding remove_file
head_removed fd content files = let same : (fd == fd) ≡ true = ground arith in rw same refl

-- A try that fails leaves no file.
pub download_bad :
    (r : Reply) (d : Disk)
    → ¬ (IsGood r)
    → download r d ≡ (none, record { next = d.next + 1; files = d.files })
unfolding download get_fd_archdep
download_bad no_handle d bad = rw (head_removed d.next [] d.files) refl
download_bad unreachable d bad = rw (head_removed d.next [] d.files) refl
download_bad (answered code parts) d bad =
    let other : (code == 200) ≡ false = ground (arith, bad) in
    rw (other, head_written d.next parts [] d.files, head_removed d.next (flatten parts) d.files)
      refl

-- A try that succeeds leaves one more file, with the body.
pub download_good :
    (r : Reply) (d : Disk)
    → IsGood r
    → download r d
      ≡ (some d.next, record { next = d.next + 1; files = (d.next, body_of r) ∷ d.files })
unfolding download get_fd_archdep
download_good no_handle d good = absurd good
download_good unreachable d good = absurd good
download_good (answered code parts) d good =
    let found : (code == 200) ≡ true = ground (arith, good) in
    rw (found, head_written d.next parts [] d.files) refl

-- The pauses from try `n` on, each twice the one before.
unfoldable pub pauses : ℕ → ℕ → ℕ → List ℕ
pauses zero n ms = []
pauses (suc count) n ms = ms * 2 ^ n ∷ pauses count (n + 1) ms

-- What is left after the tries before try `last` have failed and it has succeeded, from try `n` on.
abbrev got_at : ℕ → ℕ → ℕ → (ℕ → Reply) → Disk → Retried
got_at last n ms replies d = record {
  downloaded = some (d.next + (last - n));
  sleeps = pauses (last - n) n ms;
  disk = record {
    next = d.next + (last - n) + 1;
    files = (d.next + (last - n), body_of (replies last)) ∷ d.files;
  };
}

got_here :
    (n ms : ℕ) (replies : ℕ → Reply) (d : Disk)
    → got_at n n ms replies d ≡ record {
      downloaded = some d.next;
      sleeps = [];
      disk = record { next = d.next + 1; files = (d.next, body_of (replies n)) ∷ d.files };
    }
unfolding pauses
got_here n ms replies d =
    let nothing : n - n ≡ 0 = omega arith in
    let same : d.next + 0 ≡ d.next = omega arith in rw (got_at, nothing, same) refl

got_later :
    (last n ms : ℕ) (replies : ℕ → Reply) (d : Disk)
    → n < last
    → let rest = got_at last (n + 1) ms replies (record { next = d.next + 1; files = d.files }) in
      got_at last n ms replies d
      ≡ record { downloaded = rest.downloaded; sleeps = ms * 2 ^ n ∷ rest.sleeps; disk = rest.disk }
unfolding pauses
got_later last n ms replies d h =
    let one_more : last - n ≡ suc (last - (n + 1)) = omega arith in
    let number : d.next + suc (last - (n + 1)) ≡ d.next + 1 + (last - (n + 1)) = omega arith in
    rw (got_at, one_more, number) refl

loop_good :
    (left n last ms : ℕ) (replies : ℕ → Reply) (d : Disk)
    → n ≤ last
    → last < n + left
    → ((j : ℕ) → j < last → ¬ (IsGood (replies j)))
    → IsGood (replies last)
    → retry_loop left n ms replies d ≡ got_at last n ms replies d
unfolding retry_loop
loop_good zero n last ms replies d le lt bad good = absurd (omega arith)
loop_good (suc left) n last ms replies d le lt bad good = elim (dec_lt n last) [
  | yes before ↦
      let d' : Disk = record { next = d.next + 1; files = d.files } in
      let failed = download_bad (replies n) d (bad n before) in
      rw (retry_loop, failed)
        (rw (failed, loop_good left (n + 1) last ms replies d' (omega arith) (omega arith) bad good)
          (sym (got_later last n ms replies d before)))
  | no here ↦
      let same : last ≡ n = omega arith in
      let here : IsGood (replies n) = subst (λ (j : ℕ). IsGood (replies j)) same good in
      let found = download_good (replies n) d here in
      rw (same, retry_loop, found) (rw found (sym (got_here n ms replies d)))
]

-- The disk after `count` tries that fail.
loop_bad :
    (left n ms : ℕ) (replies : ℕ → Reply) (d : Disk)
    → ((j : ℕ) → n ≤ j → j < n + left → ¬ (IsGood (replies j)))
    → retry_loop left n ms replies d ≡ record {
      downloaded = none;
      sleeps = pauses left n ms;
      disk = record { next = d.next + left; files = d.files };
    }
unfolding retry_loop pauses
loop_bad zero n ms replies d bad = let same : d.next + 0 ≡ d.next = omega arith in rw same refl
loop_bad (suc left) n ms replies d bad =
    let number : d.next + 1 + left ≡ d.next + suc left = omega arith in
    let d' : Disk = record { next = d.next + 1; files = d.files } in
    let failed = download_bad (replies n) d (bad n (omega arith) (omega arith)) in
    rw (retry_loop, failed)
      (rw
        (
          failed,
          loop_bad left (n + 1) ms replies d' (λ j from below. bad j (omega arith) (omega arith)),
          number,
        )
        refl)

-- When the tries before one of the five fail and that one succeeds: the file that is returned holds
-- the body of its reply, the failed tries have left no file, and the pauses before it were
-- 50, 100, 200, 400 milliseconds, one for each failed try.
pub retry-first_good :
    (last : ℕ) (replies : ℕ → Reply) (d : Disk)
    → last < 5
    → ((j : ℕ) → j < last → ¬ (IsGood (replies j)))
    → IsGood (replies last)
    → download_with_retry_hardcoded replies d ≡ record {
      downloaded = some (d.next + last);
      sleeps = pauses last 0 50;
      disk = record {
        next = d.next + last + 1;
        files = (d.next + last, body_of (replies last)) ∷ d.files;
      };
    }
unfolding download_with_retry_hardcoded download_with_retry
retry-first_good last replies d h bad good =
    let all : last - 0 ≡ last = omega arith in
    loop_good 5 0 last 50 replies d (omega arith) (omega arith) bad good ∙ rw (got_at, all) refl

-- When all five tries fail, no file is returned or left, and the program has slept 1550
-- milliseconds in five pauses.
pub retry-all_bad :
    (replies : ℕ → Reply) (d : Disk)
    → ((j : ℕ) → j < 5 → ¬ (IsGood (replies j)))
    → download_with_retry_hardcoded replies d ≡ record {
      downloaded = none;
      sleeps = 50 ∷ 100 ∷ 200 ∷ 400 ∷ 800 ∷ [];
      disk = record { next = d.next + 5; files = d.files };
    }
unfolding download_with_retry_hardcoded download_with_retry pauses
retry-all_bad replies d bad = loop_bad 5 0 50 replies d (λ j from below. bad j (omega arith))
