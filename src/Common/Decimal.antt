-- ===== src/Common/Decimal.antt =====
-- What the sources use of `printf` and `scanf`: `%d` of a number that is not negative, and `%d`
-- read with its blanks and sign. Values are below 2 ^ 31; a text with a larger one, of which C
-- leaves the result open, is read as its true value here.
pub mod Digits
use Prim.Native.Nat.{ℕ, zero, suc, ◌+◌, ◌-◌, ◌*◌, ◌/◌, ◌%◌, ◌^◌, ◌≤◌, ◌<◌}
use mathlib.Core.Path.{◌≡◌, refl, sym, ap, ◌∙◌}
use mathlib.Core.Bool.{Bool, true, false, ◌&&◌, ◌||◌}
use mathlib.Core.List.{[], ◌∷◌, ◌++◌}
use mathlib.Core.Option.{Option, none, some}
use mathlib.Core.Logic.{inl, inr}
use native.Mathlib.Nat.{pow-suc}
use native.Mathlib.Omega.{arith}
use race_slothy.Common.Tests.{Bytes, IsByte, ltb, leb, ◌==◌, if◌then◌else◌, Bool-cases}
use race_slothy.Common.Lists.{length, All}

-- `negsuc n` is -(n + 1).
pub data ℤ : Type 0 where
  pos : ℕ → ℤ
  negsuc : ℕ → ℤ

abbrev pub negate : ℕ → ℤ
negate zero = pos 0
negate (suc n) = negsuc n

unfoldable pub is_digit : ℕ → Bool
is_digit c = leb b'0' c && leb c b'9'

-- `isspace` in the C locale
unfoldable pub is_space : ℕ → Bool
is_space c = c == 32 || (leb 9 c && leb c 13)

emit : ℕ → ℕ → Bytes → Bytes
emit zero n out = out
emit (suc f) n out =
    let rest = emit f (n / 10) ((b'0' + n % 10) ∷ out) in
    if ltb n 10 then (b'0' + n) ∷ out else rest

-- `%d` of a number that is not negative
unfoldable pub print_nat : ℕ → Bytes
unfolding emit
print_nat n = emit (suc n) n []

-- the digits from here on, and what is behind them
scan_digits : Bytes → ℕ → ℕ × Bytes
unfolding is_digit
scan_digits [] acc = (acc, [])
scan_digits (c ∷ s) acc =
    let rest = scan_digits s (acc * 10 + (c - b'0')) in if is_digit c then rest else (acc, c ∷ s)

unfoldable pub starts_digit : Bytes → Bool
unfolding is_digit
starts_digit [] = false
starts_digit (c ∷ s) = is_digit c

skip_space : Bytes → Bytes
unfolding is_space
skip_space [] = []
skip_space (c ∷ s) = let rest = skip_space s in if is_space c then rest else c ∷ s

scan_number : (ℕ → ℤ) → Bytes → Option (ℤ × Bytes)
unfolding scan_digits
scan_number sign s =
    let (n, rest) = scan_digits s 0 in if starts_digit s then some (sign n, rest) else none

scan_signed : Bytes → Option (ℤ × Bytes)
unfolding scan_number starts_digit
scan_signed [] = none
scan_signed (c ∷ s) =
    if c == b'-'
    then scan_number negate s
    else if c == b'+'
    then scan_number pos s
    else scan_number pos (c ∷ s)

-- `%d`: blanks, a sign, digits; `none` if no number stands there
unfoldable pub scan_int : Bytes → Option (ℤ × Bytes)
unfolding skip_space scan_signed
scan_int s = scan_signed (skip_space s)

-- Reading a print up to the digits behind it.
scan-emit :
    (f n : ℕ) (out tail : Bytes)
    → n < f
    → scan_digits (emit f n out ++ tail) 0 ≡ scan_digits (out ++ tail) n
unfolding emit scan_digits
scan-emit zero n out tail h = absurd (omega arith)
scan-emit (suc f) n out tail h = elim (Bool-cases (ltb n 10)) [
  | inl e ↦ rw e (ground arith)
  | inr e ↦ rw e (ground (arith, scan-emit f (n / 10) ((b'0' + n % 10) ∷ out) tail))
]

emit_head :
    (f n : ℕ) (out : Bytes)
    → n < f
    → (c : ℕ) × (s : Bytes) × (emit f n out ≡ c ∷ s) × (is_digit c ≡ true)
unfolding emit is_digit
emit_head zero n out h = absurd (omega arith)
emit_head (suc f) n out h = elim (Bool-cases (ltb n 10)) [
  | inl e ↦ (b'0' + n, out, rw e, ground arith)
  | inr e ↦
      let (c, s, eq, d) = emit_head f (n / 10) ((b'0' + n % 10) ∷ out) (ground arith) in
      (c, s, rw e eq, d)
]

length-emit :
    (d f n : ℕ) (out : Bytes) → n < f → n < 10 ^ suc d → length (emit f n out) ≤ length out + suc d
unfolding emit
length-emit d zero n out h k = absurd (omega arith)
length-emit zero (suc f) n out h k = ground arith
length-emit (suc d) (suc f) n out h k = elim (Bool-cases (ltb n 10)) [
  | inl e ↦ rw e (omega arith)
  | inr e ↦ rw e (
      omega (
        arith,
        pow-suc 10 (suc d),
        length-emit d f (n / 10) ((b'0' + n % 10) ∷ out) (ground arith)
            (omega (arith, pow-suc 10 (suc d))),
      ))
]

scan_int_digit :
    (c : ℕ) (s : Bytes)
    → is_digit c ≡ true
    → scan_int (c ∷ s) ≡ some (pos (scan_digits (c ∷ s) 0).0, (scan_digits (c ∷ s) 0).1)
unfolding scan_int is_digit
scan_int_digit c s h = ground arith

scan_digits_stop :
    (tail : Bytes) (n : ℕ) → starts_digit tail ≡ false → scan_digits tail n ≡ (n, tail)
unfolding scan_digits starts_digit
scan_digits_stop [] n h = refl
scan_digits_stop (c ∷ s) n h = rw h refl

-- A print is read back, if no digit follows it.
pub scan_int-print :
    (n : ℕ) (tail : Bytes)
    → starts_digit tail ≡ false
    → scan_int (print_nat n ++ tail) ≡ some (pos n, tail)
unfolding print_nat
scan_int-print n tail h =
    let (c, s, eq, d) = emit_head (suc n) n [] (omega arith) in
    let body : emit (suc n) n [] ++ tail ≡ c ∷ (s ++ tail) = ap (λ (t : Bytes). t ++ tail) eq in
    let value : scan_digits (c ∷ (s ++ tail)) 0 ≡ (n, tail) =
      ap (λ (t : Bytes). scan_digits t 0) (sym body)
      ∙ scan-emit (suc n) n [] tail (omega arith)
      ∙ scan_digits_stop tail n h in
    ap scan_int body
    ∙ scan_int_digit c (s ++ tail) d
    ∙ ap (λ (r : ℕ × Bytes). some (pos r.0, r.1)) value

-- A blank in front does not matter.
pub scan_int-space : (c : ℕ) (s : Bytes) → is_space c ≡ true → scan_int (c ∷ s) ≡ scan_int s
unfolding scan_int
scan_int-space c s h = rw h refl

emit_bytes : (f n : ℕ) (out : Bytes) → n < f → All IsByte out → All IsByte (emit f n out)
unfolding emit
emit_bytes zero n out h b = absurd (omega arith)
emit_bytes (suc f) n out h b = elim (Bool-cases (ltb n 10)) [
  | inl e ↦ rw e (ground arith, b)
  | inr e ↦ rw e (emit_bytes f (n / 10) ((b'0' + n % 10) ∷ out) (ground arith) (omega arith, b))
]

pub print_nat_bytes : (n : ℕ) → All IsByte (print_nat n)
unfolding print_nat
print_nat_bytes n = emit_bytes (suc n) n [] (omega arith) tt

-- A number below 10 ^ 10 has ten digits at most.
pub length-print_nat : (n : ℕ) → n < 10 ^ 10 → length (print_nat n) ≤ 10
unfolding print_nat
length-print_nat n h = length-emit 9 (suc n) n [] (omega arith) h

-- A number below 10 ^ 7 has seven at most.
pub length-print_nat_seven : (n : ℕ) → n < 10 ^ 7 → length (print_nat n) ≤ 7
unfolding print_nat
length-print_nat_seven n h = length-emit 6 (suc n) n [] (omega arith) h

-- Different numbers are printed differently.
pub print_nat_injective : (m n : ℕ) → print_nat m ≡ print_nat n → m ≡ n
unfolding starts_digit
print_nat_injective m n e =
    let scanned : some (pos m, []) ≡ some (pos n, []) =
      sym (scan_int-print m [] refl)
      ∙ ap (λ (t : Bytes). scan_int (t ++ [])) e
      ∙ scan_int-print n [] refl in
    ap
      (λ (o : Option (ℤ × Bytes)). elim o [
        | none ↦ m
        | some r ↦ elim r.0 [ pos k ↦ k | negsuc k ↦ k ]
      ])
      scanned
