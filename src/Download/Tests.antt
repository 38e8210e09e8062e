-- ===== src/Download/Tests.antt =====
-- The theorems on downloads at concrete replies.
use race_slothy.Common.{ℕ, zero, suc, ◌<◌, ◌≡◌, refl, some, [], ◌∷◌, arith, codes}
use race_slothy.Download.{Disk, Reply, unreachable, answered, download_with_retry_hardcoded}
use race_slothy.Download.Retry.{IsGood, pauses, retry-first_good}

abbrev empty : Disk
empty = record { next = 3; files = [] }

-- Down, then an error of the server, then the file in two parts.
abbrev third_time : ℕ → Reply
third_time zero = unreachable
third_time (suc zero) = answered 404 (codes "no" ∷ [])
third_time (suc (suc n)) = answered 200 (codes "sha" ∷ codes "rd" ∷ [])

twice_bad : (j : ℕ) → j < 2 → ¬ (IsGood (third_time j))
twice_bad zero h e = e
twice_bad (suc zero) h e = let code : ◌≡◌ {A = ℕ} 404 200 = e in omega arith
twice_bad (suc (suc j)) h e = absurd (omega arith)

retry-first_good_example : download_with_retry_hardcoded third_time empty ≡ record {
  downloaded = some 5;
  sleeps = pauses 2 0 50;
  disk = record { next = 6; files = (5, codes "shard") ∷ [] };
}
retry-first_good_example = retry-first_good 2 third_time empty (omega arith) twice_bad refl
