-- ===== src/Common/Bits.antt =====
-- Bitwise operations: `^` undoes itself, and facts about masks of a byte.
use mathlib.Core.Bool.{◌&&◌, Bool, true}
use native.Mathlib.Omega.{arith}
use mathlib.Core.Path.{refl, ◌≡◌}
use Prim.Native.Nat.{
  bit_xor, differ, digits, bit_xor-bitwise, ℕ, zero, suc, ◌*◌, ◌+◌, ◌/◌, ◌<◌, ◌≤◌, ◌%◌,
}
use race_slothy.Common.Tests.{◌==◌, ==_iff}

-- A test of all numbers below a bound, by evaluation.
unfoldable pub sweep : (ℕ → Bool) → ℕ → Bool
sweep test zero = true
sweep test (suc bound) = sweep test bound && test bound

pub sweep_at : (test : ℕ → Bool) (bound x : ℕ) → x < bound → sweep test bound ≡ true → test x ≡ true
unfolding sweep
sweep_at test zero x below swept = absurd (omega arith)
sweep_at test (suc bound) x below swept = ground (sweep_at test bound x, arith)

-- Two functions that agree on every byte by evaluation agree at a byte.
pub byte_table : (f g : ℕ → ℕ) (x : ℕ) → sweep (λ y. f y == g y) 256 ≡ true → x < 256 → f x ≡ g x
byte_table f g x swept below = (==_iff _ _).0 (sweep_at _ 256 x below swept)

-- The operation recurs on binary digits with fuel; without the fuel, an equation for the lowest.
abbrev xor_digits : ℕ → ℕ → ℕ → ℕ
xor_digits n a b = digits (λ b. b) differ n a b

xor_digits_fuel :
    (a b fuel more : ℕ) → a ≤ more → a ≤ fuel → xor_digits fuel a b ≡ xor_digits more a b
xor_digits_fuel zero b zero zero h k = refl
xor_digits_fuel zero b zero (suc more) h k = refl
xor_digits_fuel zero b (suc fuel) zero h k = refl
xor_digits_fuel zero b (suc fuel) (suc more) h k = refl
xor_digits_fuel (suc a) b zero more h k = absurd (omega arith)
xor_digits_fuel (suc a) b (suc fuel) zero h k = absurd (omega arith)
xor_digits_fuel (suc a) b (suc fuel) (suc more) h k =
    omega (xor_digits_fuel (suc a / 2) (b / 2) fuel more (omega arith) (omega arith), arith)

zero-bit_xor : (b : ℕ) → bit_xor 0 b ≡ b
zero-bit_xor b = bit_xor-bitwise 0 b

differ_zero : (b : ℕ) → b < 2 → differ 0 b ≡ b
differ_zero zero h = refl
differ_zero (suc zero) h = refl
differ_zero (suc (suc b)) h = absurd (omega arith)

pub bit_xor_step : (a b : ℕ) → bit_xor a b ≡ bit_xor (a / 2) (b / 2) * 2 + differ (a % 2) (b % 2)
bit_xor_step zero b = omega (arith, zero-bit_xor b, zero-bit_xor (b / 2), differ_zero (b % 2))
bit_xor_step (suc a) b = omega (
  arith,
  bit_xor-bitwise (suc a) b,
  bit_xor-bitwise (suc a / 2) (b / 2),
  xor_digits_fuel (suc a / 2) (b / 2) a (suc a / 2) (omega arith) (omega arith),
)

differ_bit : (a b : ℕ) → a < 2 → b < 2 → (differ a b < 2) × (differ (differ a b) b ≡ a)
differ_bit zero zero p q = omega arith
differ_bit zero (suc zero) p q = (omega arith, refl)
differ_bit zero (suc (suc b)) p q = absurd (omega arith)
differ_bit (suc zero) zero p q = (omega arith, refl)
differ_bit (suc zero) (suc zero) p q = (omega arith, refl)
differ_bit (suc zero) (suc (suc b)) p q = absurd (omega arith)
differ_bit (suc (suc a)) b p q = absurd (omega arith)

bit_xor_undo_fuel : (n a b : ℕ) → a ≤ n → b ≤ n → bit_xor (bit_xor a b) b ≡ a
bit_xor_undo_fuel zero zero zero p q = refl
bit_xor_undo_fuel zero zero (suc b) p q = absurd (omega arith)
bit_xor_undo_fuel zero (suc a) b p q = absurd (omega arith)
bit_xor_undo_fuel (suc n) a b p q =
    let ih : bit_xor (bit_xor (a / 2) (b / 2)) (b / 2) ≡ a / 2 =
      bit_xor_undo_fuel n (a / 2) (b / 2) (omega arith) (omega arith) in
    let (low, undo) = differ_bit (a % 2) (b % 2) (omega arith) (omega arith) in
    let step = bit_xor_step a b in
    let half : bit_xor a b / 2 ≡ bit_xor (a / 2) (b / 2) = omega arith in
    let last : bit_xor a b % 2 ≡ differ (a % 2) (b % 2) = omega arith in
    rw (bit_xor_step (bit_xor a b) b, half, last, ih, undo) (omega arith)

-- Applying the same mask twice gives the value back.
pub bit_xor_undo : (a b : ℕ) → bit_xor (bit_xor a b) b ≡ a
bit_xor_undo a b = bit_xor_undo_fuel (a + b) a b (omega arith) (omega arith)
