-- ===== src/Download.antt =====
-- artifact-manager-plugin/src/download.cpp: `download`, `download_with_retry` and
-- `download_with_retry_hardcoded`, with `get_fd_archdep` and `write_data` of
-- util/file_descriptor.cpp. What libcurl reports for each try is an argument. A failure of
-- `get_fd_archdep` or of `write` exits the program and is not modelled.
pub mod Retry
pub mod Unshard
mod Tests
use race_slothy.Common.{
  ℕ, zero, suc, ◌+◌, ◌*◌, ◌^◌, Bool, true, false, Option, none, some, List, [], ◌∷◌, ◌++◌, Bytes,
  ◌==◌, if◌then◌else◌, flatten,
}

-- The files in memory, each with its number and content, and the next number.
pub record Disk : Type 0 where
  pub next : ℕ
  pub files : List (ℕ × Bytes)

-- A try: `curl_easy_init` gives the null pointer, `curl_easy_perform` fails, or it has given the
-- callback these parts of the body, and the response has this code.
pub data Reply : Type 0 where
  no_handle : Reply
  unreachable : Reply
  answered : ℕ → List Bytes → Reply

unfoldable pub get_fd_archdep : Disk → ℕ × Disk
get_fd_archdep d = (d.next, record { next = d.next + 1; files = (d.next, []) ∷ d.files })

-- `write(shm_fd, ptr, nmemb)` at the end of a file
unfoldable pub write_data : ℕ → Bytes → List (ℕ × Bytes) → List (ℕ × Bytes)
write_data fd part [] = []
write_data fd part ((n, content) ∷ files) =
    if n == fd then (n, content ++ part) ∷ files else (n, content) ∷ write_data fd part files

-- one call of the callback for each part
unfoldable pub write_parts : ℕ → List Bytes → List (ℕ × Bytes) → List (ℕ × Bytes)
write_parts fd [] files = files
write_parts fd (part ∷ parts) files = write_parts fd parts (write_data fd part files)

-- `close` and `remove`
unfoldable pub remove_file : ℕ → List (ℕ × Bytes) → List (ℕ × Bytes)
remove_file fd [] = []
remove_file fd ((n, content) ∷ files) =
    if n == fd then files else (n, content) ∷ remove_file fd files

unfoldable pub download : Reply → Disk → Option ℕ × Disk
download no_handle d =
    let (f, d') = get_fd_archdep d in
    (none, record { next = d'.next; files = remove_file f d'.files })
download unreachable d =
    let (f, d') = get_fd_archdep d in
    (none, record { next = d'.next; files = remove_file f d'.files })
download (answered code parts) d =
    let (f, d') = get_fd_archdep d in
    let written = write_parts f parts d'.files in
    if code == 200
    then (some f, record { next = d'.next; files = written })
    else (none, record { next = d'.next; files = remove_file f written })

-- The file, the milliseconds slept between the tries, and the disk.
pub record Retried : Type 0 where
  pub downloaded : Option ℕ
  pub sleeps : List ℕ
  pub disk : Disk

-- `while (num_tries < max_retries)`, with the tries left; the replies are those from `num_tries` on.
unfoldable pub retry_loop : ℕ → ℕ → ℕ → (ℕ → Reply) → Disk → Retried
retry_loop zero num_tries ms replies d = record { downloaded = none; sleeps = []; disk = d }
retry_loop (suc left) num_tries ms replies d =
    let (file, d') = download (replies num_tries) d in
    let rest = retry_loop left (num_tries + 1) ms replies d' in
    elim file [
      | some f ↦ record { downloaded = some f; sleeps = []; disk = d' }
      | none ↦ record {
        downloaded = rest.downloaded;
        sleeps = ms * 2 ^ num_tries ∷ rest.sleeps;
        disk = rest.disk;
      }
    ]

unfoldable pub download_with_retry : ℕ → ℕ → (ℕ → Reply) → Disk → Retried
download_with_retry max_retries ms replies d = retry_loop max_retries 0 ms replies d

unfoldable pub download_with_retry_hardcoded : (ℕ → Reply) → Disk → Retried
download_with_retry_hardcoded replies d = download_with_retry 5 50 replies d
