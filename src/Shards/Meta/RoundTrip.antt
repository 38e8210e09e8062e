-- ===== src/Shards/Meta/RoundTrip.antt =====
-- rs_shard.cpp: the printed metadata as `sscanf` reads it, and its padding.
use native.Mathlib.Nat.{mul-div_cancel_left}
use race_slothy.Common.{
  ℕ, zero, suc, ◌+◌, ◌-◌, ◌*◌, ◌/◌, ◌^◌, ◌≤◌, ◌<◌, ◌≡◌, refl, ap, ◌∙◌, true, false, some, [], ◌∷◌,
  ◌++◌, arith, Bytes, ◌==◌, length, replicate, append_assoc, append-nil, length-append, print_nat,
  ℤ, pos, scan_int-print, scan_int-space, starts_digit, is_space, length-print_nat,
}
use race_slothy.Shards.Meta.{Plan, padding, plan, meta_text, pad_meta, Meta, scan_field, scan_meta}

-- `buffersize` is 0 at its test, so the second branch is taken.
pub plan_lem :
    (k n : ℕ)
    → plan k n ≡ record {
      size = n + padding n;
      blocksize = (n + padding n) / k;
      padding_size = padding n;
      buffersize = n + padding n;
      readins = 1;
    }
unfolding plan
plan_lem k n = ground arith

pub padded : (n : ℕ) → n + padding n ≡ (n + 127) / 128 * 128
unfolding padding
padded n = ground arith

pub blocks_of_padded : (k q t : ℕ) → k * q ≡ 128 → k * ((t * 128) / k) ≡ t * 128
blocks_of_padded zero q t h = absurd (omega arith)
blocks_of_padded (suc k) q t h =
    let split : t * 128 ≡ suc k * (t * q) = rw (← h) (grind arith) in
    rw split (ap (λ (x : ℕ). suc k * x) (mul-div_cancel_left (t * q) (omega arith)))

-- With a threshold that divides 128: the padded size is the next multiple of 128, `k` blocks make
-- it up, cutting the padding off gives the size of the file, and the file is read in one round of the
-- padded size.
pub plan_sizes :
    (k q file_size : ℕ)
    → k * q ≡ 128
    → let p = plan k file_size in
      (p.size ≡ (file_size + 127) / 128 * 128)
      × (k * p.blocksize ≡ p.size)
      × (p.size - p.padding_size ≡ file_size)
      × (p.buffersize ≡ p.size)
      × (p.readins ≡ 1)
plan_sizes k q file_size h = rw plan_lem (
  padded file_size,
  rw padded (blocks_of_padded k q ((file_size + 127) / 128) h),
  omega arith,
  refl,
  refl,
)

scan_field-print :
    (n : ℕ) (tail : Bytes) (old : ℤ)
    → starts_digit tail ≡ false
    → scan_field (print_nat n ++ tail) old ≡ (pos n, tail)
unfolding scan_field
scan_field-print n tail old h = rw (scan_int-print n tail h, scan_field) refl

scan_field-space :
    (c : ℕ) (tail : Bytes) (old : ℤ)
    → is_space c ≡ true
    → scan_field (c ∷ tail) old ≡ scan_field tail old
unfolding scan_field
scan_field-space c tail old h = rw (scan_int-space c tail h, scan_field) refl

field_blank :
    (n : ℕ) (tail : Bytes) (old : ℤ)
    → scan_field (print_nat n ++ 32 ∷ tail) old ≡ (pos n, 32 ∷ tail)
unfolding starts_digit
field_blank n tail old = scan_field-print n (32 ∷ tail) old refl

field_newline :
    (n : ℕ) (tail : Bytes) (old : ℤ)
    → scan_field (print_nat n ++ 10 ∷ tail) old ≡ (pos n, 10 ∷ tail)
unfolding starts_digit
field_newline n tail old = scan_field-print n (10 ∷ tail) old refl

skip_blank : (tail : Bytes) (old : ℤ) → scan_field (32 ∷ tail) old ≡ scan_field tail old
unfolding is_space
skip_blank tail old = scan_field-space 32 tail old refl

skip_newline : (tail : Bytes) (old : ℤ) → scan_field (10 ∷ tail) old ≡ scan_field tail old
unfolding is_space
skip_newline tail old = scan_field-space 10 tail old refl

ruleset fields = (field_blank, field_newline, skip_blank, skip_newline, append_assoc)

-- The variables that hold a plan.
abbrev pub meta_of : Plan → ℕ → ℕ → ℕ → Meta
meta_of p k m w = record {
  origsize = pos p.size;
  blocksize = pos p.blocksize;
  pre_padded = pos (p.size - p.padding_size);
  k = pos k;
  m = pos m;
  w = pos w;
  buffersize = pos p.buffersize;
  readins = pos p.readins;
}

-- Whatever stands behind the printed metadata, and whatever the variables held, `sscanf` reads
-- the eight numbers back.
pub scan_meta-text :
    (p : Plan) (k m w : ℕ) (tail : Bytes) (old : Meta)
    → scan_meta (meta_text p k m w ++ tail) old ≡ meta_of p k m w
unfolding scan_meta meta_text
scan_meta-text p k m w tail old = simp fields

-- From a text `n` bytes short of 1024, with more than `n` rounds of fuel, the loop that pads the
-- metadata ends with `n` zeros behind the text.
pub pad_meta-replicate :
    (fuel n : ℕ) (buf : Bytes)
    → length buf + n ≡ 1024
    → n < fuel
    → pad_meta fuel buf ≡ some (buf ++ replicate n 0)
unfolding pad_meta
pad_meta-replicate zero n buf e h = absurd (omega arith)
pad_meta-replicate (suc fuel) zero buf e h =
    let full : (length buf == 1024) ≡ true = ground arith in rw (full, append-nil) refl
pad_meta-replicate (suc fuel) (suc n) buf e h =
    let short : (length buf == 1024) ≡ false = ground arith in
    rw short (
      pad_meta-replicate fuel n (buf ++ 0 ∷ []) (omega (arith, length-append buf (0 ∷ [])))
        (omega arith)
      ∙ ap some (append_assoc buf (0 ∷ []) (replicate n 0)))

sum_le :
    (a b n : ℕ) (xs ys : Bytes) (c : ℕ)
    → length xs ≤ a
    → length ys ≤ b
    → a + b + 1 ≤ n
    → length (xs ++ c ∷ ys) ≤ n
sum_le a b n xs ys c h k e = omega (arith, length-append xs (c ∷ ys))

-- Eight numbers of ten digits at most, each with a separator.
pub length-meta_text :
    (p : Plan) (k m w : ℕ)
    → p.size < 10 ^ 10
    → p.blocksize < 10 ^ 10
    → p.buffersize < 10 ^ 10
    → p.readins < 10 ^ 10
    → k < 10 ^ 10
    → m < 10 ^ 10
    → w < 10 ^ 10
    → length (meta_text p k m w) ≤ 88
unfolding meta_text
length-meta_text p k m w h1 h2 h3 h4 h5 h6 h7 =
    let digits = λ (n : ℕ) (h : n < 10 ^ 10). length-print_nat n h in
    sum_le 10 77 88 (print_nat p.size) _ 32 (digits p.size h1)
      (sum_le 10 66 77 (print_nat p.blocksize) _ 32 (digits p.blocksize h2)
        (sum_le 10 55 66 (print_nat (p.size - p.padding_size)) _ 10
          (digits (p.size - p.padding_size) (omega arith))
          (sum_le 10 44 55 (print_nat k) _ 32 (digits k h5)
            (sum_le 10 33 44 (print_nat m) _ 32 (digits m h6)
              (sum_le 10 22 33 (print_nat w) _ 32 (digits w h7)
                (sum_le 10 11 22 (print_nat p.buffersize) _ 10 (digits p.buffersize h3)
                  (sum_le 10 0 11 (print_nat p.readins) [] 10 (digits p.readins h4) (omega arith)
                    (omega arith))
                  (omega arith))
                (omega arith))
              (omega arith))
            (omega arith))
          (omega arith))
        (omega arith))
      (omega arith)
