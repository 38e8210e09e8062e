-- ===== src/Common/Memory.antt =====
-- Buffers and files of C: `malloc`, `memcpy` into a buffer with its bound, `ftruncate`.
use Prim.Native.Nat.{ℕ, ◌+◌, ◌-◌, ◌≤◌, ◌<◌}
use mathlib.Core.Path.{◌≡◌}
use mathlib.Core.Bool.{true}
use mathlib.Core.List.{[], ◌∷◌, ◌++◌, append-nil}
use mathlib.Core.Option.{Option, none, some}
use Prim.Native.Nat.add
use native.Mathlib.Nat.{zero-add}
use native.Mathlib.Omega.{arith}
use race_slothy.Common.Tests.{Bytes, leb, if◌then◌else◌}
use race_slothy.Common.Lists.{length, take, drop, replicate, length-append, take_left, take_all}

-- What `malloc` hands out: a block of the length asked for, with any content.
pub record Malloc : Type 0 where
  pub fresh : ℕ → Bytes
  pub length-fresh : (n : ℕ) → length (fresh n) ≡ n

-- `memcpy(dst + off, src, n)`; `none` is a write outside of the block.
unfoldable pub memcpy : Bytes → ℕ → Bytes → Option Bytes
memcpy dst off src =
    if leb (off + length src) (length dst)
    then some (take off dst ++ (src ++ drop (off + length src) dst))
    else none

-- `ftruncate(file, n)`: cut to `n` bytes, or extended to them by zeros.
unfoldable pub ftruncate : ℕ → Bytes → Bytes
ftruncate n file = take n file ++ replicate (n - length file) 0

drop_behind : (front rest : Bytes) (k : ℕ) → drop (length front + k) (front ++ rest) ≡ drop k rest
drop_behind [] rest k = rw zero-add
drop_behind (x ∷ front) rest k = rw (add.suc (length front) k) (drop_behind front rest k)

-- A write behind a part that is done keeps that part.
pub memcpy_behind :
    (front rest src : Bytes) {off : ℕ}
    → length front ≡ off
    → length src ≤ length rest
    → memcpy (front ++ rest) off src ≡ some (front ++ (src ++ drop (length src) rest))
unfolding memcpy
memcpy_behind front rest src {off} h fits =
    let inside : leb (off + length src) (length (front ++ rest)) ≡ true =
      ground (arith, length-append front rest) in
    rw (inside, take_left front rest h, ← h, drop_behind front rest (length src))

pub memcpy_outside :
    (dst src : Bytes) (off : ℕ) → length dst < off + length src → memcpy dst off src ≡ none
unfolding memcpy
memcpy_outside dst src off h = ground arith

pub ftruncate_self : (file : Bytes) {n : ℕ} → length file ≡ n → ftruncate n file ≡ file
unfolding ftruncate
ftruncate_self file {n} h =
    let none_left : n - length file ≡ 0 = omega arith in
    rw (take_all n file (omega arith), none_left) (append-nil file)
