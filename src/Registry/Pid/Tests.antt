-- ===== src/Registry/Pid/Tests.antt =====
-- The theorem on the file of the process for three processes.
use race_slothy.Common.{ℕ, ◌≡◌, refl, ◌⊎◌, true, false, some, List, [], ◌∷◌, codes, print_nat}
use race_slothy.Registry.Pid.{Calls, pid_text, write_pid, create_pid_file}
use race_slothy.Registry.Pid.Exclusive.{create_all, free, create_all_exclusive}

abbrev fine : Calls
fine = record { opens = true; locks = true; truncates = true; writes = some 3 }

abbrev unopened : Calls
unopened = record { opens = false; locks = true; truncates = true; writes = some 3 }

abbrev three : List (Calls × ℕ)
three = (unopened, 40) ∷ (fine, 41) ∷ (fine, 42) ∷ []

second_only : (create_all three (free (codes "7\n"))).0 ≡ 41 ∷ []
unfolding create_all create_pid_file write_pid pid_text print_nat
second_only = refl

create_all_exclusive_example :
    ((create_all three (free (codes "7\n"))).0 ≡ [])
    ⊎ ((pid : ℕ) × ((create_all three (free (codes "7\n"))).0 ≡ pid ∷ [])
        × ((create_all three (free (codes "7\n"))).1.content ≡ pid_text pid))
create_all_exclusive_example = create_all_exclusive three (codes "7\n")
