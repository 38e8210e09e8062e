-- ===== src/Download/Unshard/Failed.antt =====
-- download.cpp: `download_and_unshard` when a shard cannot be downloaded.
use race_slothy.Common.{ℕ, ◌<◌, ◌≡◌, refl, Option, List, [], ◌∷◌, ◌++◌, Bytes, Malloc, ℤ}
use race_slothy.Header.{Sha256}
use race_slothy.Secretbox.{Nacl, Sink}
use race_slothy.Shards.{Md5, Jerasure}
use race_slothy.Shards.Validate.{Vars}
use race_slothy.Shards.Unshard.{Decoder}
use race_slothy.Download.{download_with_retry_hardcoded}
use race_slothy.Download.Retry.{IsGood, retry-all_bad}
use race_slothy.Pipeline.{Sss, fault}
use race_slothy.Pipeline.RoundTrip.{unshard_fd-missing}
use race_slothy.Download.Unshard.{Address, returned, join_threads, download_and_unshard}

join_threads-append :
    (filename : ℕ → Bytes) (before after : List Address)
    → join_threads filename (before ++ after)
      ≡ join_threads filename before ++ join_threads filename after
unfolding join_threads
join_threads-append filename [] after = refl
join_threads-append filename (a ∷ before) after =
    rw (join_threads-append filename before after) refl

-- When all five tries of one address fail, `download_and_unshard` leaves defined behaviour, whatever
-- the other addresses give: also when eight or more of them give a good shard.
pub download_and_unshard-failed :
    (nacl : Nacl) (sss : Sss) (md5 : Md5) (j : Jerasure) (dec : Decoder j) (sha : Sha256)
    (heap : Malloc) (filename : ℕ → Bytes) (before after : List Address) (bad : Address)
    (outfile : Option Sink) (fuel : ℕ) (garbage : Bytes) (vars : Vars) (pre_padded : ℤ)
    → ((i : ℕ) → i < 5 → ¬ (IsGood (bad.replies i)))
    → download_and_unshard filename nacl sss md5 j sha heap dec
        (before ++ bad ∷ after)
        outfile
        fuel
        garbage
        vars
        pre_padded
      ≡ fault
unfolding download_and_unshard join_threads returned
download_and_unshard-failed nacl sss md5 j dec sha heap filename [] after bad outfile fuel garbage
      vars pre_padded fails =
    let none_got = retry-all_bad bad.replies bad.files_before fails in
    rw (download_and_unshard, returned, none_got)
      (unshard_fd-missing nacl sss md5 j dec sha heap [] (join_threads filename after) outfile fuel
        8 16 garbage vars pre_padded)
download_and_unshard-failed nacl sss md5 j dec sha heap filename (a ∷ before) after bad outfile fuel
      garbage vars pre_padded fails =
    let none_got = retry-all_bad bad.replies bad.files_before fails in
    let first = returned filename (download_with_retry_hardcoded a.replies a.files_before) in
    rw (download_and_unshard, join_threads-append filename before (bad ∷ after), returned, none_got)
      (unshard_fd-missing nacl sss md5 j dec sha heap (first ∷ join_threads filename before)
        (join_threads filename after) outfile fuel 8 16 garbage vars pre_padded)
