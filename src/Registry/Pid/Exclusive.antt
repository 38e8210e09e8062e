-- ===== src/Registry/Pid/Exclusive.antt =====
-- createPidFile.cpp: only one process gets the file.
use race_slothy.Common.{
  ℕ, ◌≡◌, refl, ◌⊎◌, inl, inr, Bool-cases, Bool, true, false, Option, none, some, List, [], ◌∷◌,
  arith, Bytes, ◌==◌, if◌then◌else◌, length, take, take_all,
}
use race_slothy.Registry.Pid.{PidFile, Calls, pid_text, write_pid, create_pid_file}

-- The processes that call one after the other, and which of them got the file.
unfoldable pub create_all : List (Calls × ℕ) → PidFile → List ℕ × PidFile
create_all [] file = ([], file)
create_all ((calls, pid) ∷ rest) file =
    let first = create_pid_file calls pid file in
    let others = create_all rest first.1 in (if first.0 then pid ∷ others.0 else others.0, others.1)

abbrev pub free : Bytes → PidFile
free content = record { content = content; lock = none }

abbrev taken : Bytes → ℕ → PidFile
taken content holder = record { content = content; lock = some holder }

-- With the lock taken, a call fails and changes nothing.
taken_one :
    (calls : Calls) (pid holder : ℕ) (content : Bytes)
    → create_pid_file calls pid (taken content holder) ≡ (false, taken content holder)
unfolding create_pid_file
taken_one calls pid holder content = elim (Bool-cases calls.opens) [
  | inl e ↦ rw (create_pid_file, e) refl
  | inr e ↦ rw (create_pid_file, e) refl
]

taken_all :
    (all : List (Calls × ℕ)) (holder : ℕ) (content : Bytes)
    → create_all all (taken content holder) ≡ ([], taken content holder)
unfolding create_all
taken_all [] holder content = refl
taken_all ((calls, pid) ∷ rest) holder content =
    rw (create_all, taken_one calls pid holder content) (rw (taken_all rest holder content) refl)

-- What a first call does: it leaves the file free, or takes it and fails or succeeds.
data FirstCall (content : Bytes) (pid : ℕ) (r : Bool × PidFile) : Type 0 where
  still_free : r ≡ (false, free content) → FirstCall content pid r
  spoiled : (c : Bytes) → r ≡ (false, taken c pid) → FirstCall content pid r
  got : r ≡ (true, taken (pid_text pid) pid) → FirstCall content pid r

written :
    (writes : Option ℕ) (pid : ℕ) (content : Bytes)
    → FirstCall content pid (write_pid writes pid (taken [] pid))
unfolding write_pid
written none pid content = spoiled [] refl
written (some n) pid content = elim (Bool-cases (n == length (pid_text pid))) [
  | inl e ↦
      let whole : take n (pid_text pid) ≡ pid_text pid =
        take_all n (pid_text pid) (ground (arith, e)) in
      got (rw (e, whole) refl)
  | inr e ↦ spoiled (take n (pid_text pid)) (rw e refl)
]

first_call :
    (calls : Calls) (pid : ℕ) (content : Bytes)
    → FirstCall content pid (create_pid_file calls pid (free content))
unfolding create_pid_file
first_call calls pid content = elim (Bool-cases calls.opens) [
  | inr e ↦ still_free (rw (create_pid_file, e) refl)
  | inl e ↦ elim (Bool-cases calls.locks) [
    | inr k ↦ still_free (rw (create_pid_file, e, k) refl)
    | inl k ↦ elim (Bool-cases calls.truncates) [
      | inr t ↦ spoiled content (rw (create_pid_file, e, k, t) refl)
      | inl t ↦ rw (create_pid_file, e, k, t) (written calls.writes pid content)
    ]
  ]
]

-- Whatever processes call one after the other, none of which ends, and however the calls of the
-- system end, on a file without a lock: none of them gets the file, or exactly one, and then the file
-- holds the number of this one and a line feed to the end.
pub create_all_exclusive :
    (all : List (Calls × ℕ)) (content : Bytes)
    → ((create_all all (free content)).0 ≡ [])
      ⊎ ((pid : ℕ) × ((create_all all (free content)).0 ≡ pid ∷ [])
          × ((create_all all (free content)).1.content ≡ pid_text pid))
unfolding create_all
create_all_exclusive [] content = inl refl
create_all_exclusive ((calls, pid) ∷ rest) content = elim (first_call calls pid content) [
  | still_free e ↦ rw (create_all, e) (create_all_exclusive rest content)
  | spoiled c e ↦ rw (create_all, e) (rw (taken_all rest pid c) (inl refl))
  | got e ↦ rw (create_all, e) (rw (taken_all rest pid (pid_text pid)) (inr (pid, refl, refl)))
]
