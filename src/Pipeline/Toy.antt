-- ===== src/Pipeline/Toy.antt =====
-- Shares of a key that are copies of it, and a disk with a small file.
use mathlib.Core.Path.{subst}
use race_slothy.Common.{
  ℕ, ◌<◌, ◌≤◌, ◌≡◌, refl, ap, ◌∙◌, Option, none, some, List, [], ◌∷◌, ◌++◌, map, arith, Bytes,
  IsByte, All, codes, length, take, get_or, replicate, length-replicate, length-append,
  All-replicate, get_or-replicate, bytes_eq, take_left,
}
use race_slothy.Secretbox.Tests.{glass}
use race_slothy.Shards.Files.{Store, look_up}
use race_slothy.Shards.Tests.{dirty}
use race_slothy.Shards.Unshard.Count.{IsDistinct}
use race_slothy.Pipeline.{Sss, sss_share_len}
use race_slothy.Pipeline.Stored.{BoxesBytes}

-- Every share of the key is the key.
abbrev pub copy_of : Bytes → Bytes
copy_of secret = secret ++ replicate 49 0

abbrev pub combined : List Bytes → Option Bytes
combined [] = none
combined (s ∷ shares) = some (take 64 s)

pub copies_sizes :
    (secret : Bytes) (n k : ℕ)
    → length secret ≡ 64
    → 0 < k
    → k ≤ n
    → n < 256
    → (length (replicate n (copy_of secret)) ≡ n)
      × All (λ (s : Bytes). length s ≡ sss_share_len) (replicate n (copy_of secret))
copies_sizes secret n k size h l e = (
  length-replicate n (copy_of secret),
  All-replicate (λ (s : Bytes). length s ≡ sss_share_len) n (copy_of secret)
      (omega (arith, length-append secret (replicate 49 0), length-replicate {A = ℕ} 49 0)),
)

pub copies_combine :
    (secret : Bytes) (n k : ℕ) (picks : List ℕ)
    → length secret ≡ 64
    → 0 < k
    → k ≤ n
    → n < 256
    → IsDistinct picks
    → All (λ (q : ℕ). q < n) picks
    → k ≤ length picks
    → combined (map (λ q. get_or (replicate n (copy_of secret)) q []) picks) ≡ some secret
copies_combine secret n k [] size h l e distinct below many = absurd (omega arith)
copies_combine secret n k (q ∷ picks) size h l e distinct (here, below) many =
    ap (λ (s : Bytes). some (take 64 s)) (get_or-replicate n q (copy_of secret) [] here)
    ∙ ap (λ (s : Bytes). some s) (take_left secret (replicate 49 0) size)

abbrev pub copying : Sss
copying = record {
  create = λ secret n k. replicate n (copy_of secret);
  combine = combined;
  length-create = copies_sizes;
  combine-create = copies_combine;
}

value : Option Bytes → Bytes
value none = []
value (some b) = b

pub glass_bytes : BoxesBytes glass
unfolding value
glass_bytes key nonce m c bytes e = subst (λ (b : Bytes). All IsByte b) (ap value e) bytes

pub dirty_bytes : (n : ℕ) → All IsByte (dirty.fresh n)
dirty_bytes n = All-replicate IsByte n 0xcc (omega arith)

abbrev pub message : Bytes
message = codes "an artifact"

pub message_bytes : All IsByte message
message_bytes = ground arith

abbrev pub disk : Store
disk = (codes "artifact.so", message) ∷ []

abbrev pub pre_images : ℕ → Bytes
pre_images q = replicate 32 q

pub there : look_up disk (codes "artifact.so") ≡ some message
unfolding look_up bytes_eq
there = refl
