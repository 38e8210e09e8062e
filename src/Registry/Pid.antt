-- ===== src/Registry/Pid.antt =====
-- registry-client/src/race/createPidFile.cpp: the file that keeps a second registry from starting.
-- What it prints is left out. A descriptor is never closed, so a lock lasts as long as its process.
pub mod Exclusive
mod Tests
use race_slothy.Common.{
  ℕ, Bool, true, false, Option, none, some, List, [], ◌∷◌, ◌++◌, Bytes, codes, ◌==◌, if◌then◌else◌,
  length, take, print_nat,
}

-- The content of the file, and the process that has the lock of it.
pub record PidFile : Type 0 where
  pub content : Bytes
  pub lock : Option ℕ

-- How the calls of the system end: whether `open`, `flock` of a file without a lock, and
-- `ftruncate` succeed, and how many bytes `write` takes (`none`: it fails).
pub record Calls : Type 0 where
  pub opens : Bool
  pub locks : Bool
  pub truncates : Bool
  pub writes : Option ℕ

-- `snprintf(buffer, bufferSize, "%ld\n", getpid())`, which fits into the 128 bytes
unfoldable pub pid_text : ℕ → Bytes
pid_text pid = print_nat pid ++ codes "\n"

unfoldable pub write_pid : Option ℕ → ℕ → PidFile → Bool × PidFile
write_pid none pid file = (false, file)
write_pid (some n) pid file =
    (n == length (pid_text pid), record file { content = take n (pid_text pid) })

-- `createPidFile` of a process: whether it returns the file, not -1.
unfoldable pub create_pid_file : Calls → ℕ → PidFile → Bool × PidFile
create_pid_file calls pid file =
    if calls.opens
    then elim file.lock [
      | some holder ↦ (false, file)
      | none ↦
          if calls.locks
          then if calls.truncates
            then write_pid calls.writes pid (record { content = []; lock = some pid })
            else (false, record file { lock = some pid })
          else (false, file)
    ]
    else (false, file)
