-- ===== src/Common/Decimal/Digits.antt =====
-- The last digits that `%d` prints.
use Prim.Native.Nat.{ℕ, zero, suc, ◌+◌, ◌/◌, ◌%◌, ◌≤◌, ◌<◌}
use mathlib.Core.Path.{◌≡◌, refl, sym, ap, ◌∙◌}
use mathlib.Core.Bool.{false, true}
use mathlib.Core.List.{[], ◌∷◌, ◌++◌, append_assoc}
use mathlib.Core.Logic.{inl, inr}
use native.Mathlib.Omega.{arith}
use race_slothy.Common.Tests.{Bytes, ltb, Bool-cases}
use race_slothy.Common.Decimal.{emit, print_nat}

-- The four digits of a number below 10000.
unfoldable pub four_digits : ℕ → Bytes
four_digits n =
    (b'0' + n / 1000) ∷ (b'0' + n / 100 % 10) ∷ (b'0' + n / 10 % 10) ∷ (b'0' + n % 10) ∷ []

emit_digit : (f n : ℕ) (out : Bytes) → n < 10 → emit (suc f) n out ≡ (b'0' + n) ∷ out
unfolding emit
emit_digit f n out h = let small : ltb n 10 ≡ true = ground arith in rw small refl

emit_step :
    (f n : ℕ) (out : Bytes) → 10 ≤ n → emit (suc f) n out ≡ emit f (n / 10) ((b'0' + n % 10) ∷ out)
unfolding emit
emit_step f n out h = let large : ltb n 10 ≡ false = ground arith in rw large refl

emit-append : (f n : ℕ) (out : Bytes) → n < f → emit f n out ≡ emit f n [] ++ out
emit-append zero n out h = absurd (omega arith)
emit-append (suc f) n out h = elim (Bool-cases (ltb n 10)) [
  | inl e ↦ rw (emit_digit f n out (ground arith), emit_digit f n [] (ground arith)) refl
  | inr e ↦
      emit_step f n out (ground arith)
      ∙ emit-append f (n / 10) ((b'0' + n % 10) ∷ out) (ground arith)
      ∙ sym (append_assoc (emit f (n / 10) []) ((b'0' + n % 10) ∷ []) out)
      ∙ ap (λ (t : Bytes). t ++ out)
          (sym (emit-append f (n / 10) ((b'0' + n % 10) ∷ []) (ground arith)))
      ∙ ap (λ (t : Bytes). t ++ out) (sym (emit_step f n [] (ground arith)))
]

pub print_one : (n : ℕ) → n < 10 → print_nat n ≡ (b'0' + n) ∷ []
unfolding print_nat
print_one n h = emit_digit n n [] h

emit_fuel : (f g n : ℕ) (out : Bytes) → n < f → n < g → emit f n out ≡ emit g n out
emit_fuel zero g n out h k = absurd (omega arith)
emit_fuel (suc f) zero n out h k = absurd (omega arith)
emit_fuel (suc f) (suc g) n out h k = elim (Bool-cases (ltb n 10)) [
  | inl e ↦ emit_digit f n out (ground arith) ∙ sym (emit_digit g n out (ground arith))
  | inr e ↦
      emit_step f n out (ground arith)
      ∙ emit_fuel f g (n / 10) ((b'0' + n % 10) ∷ out) (ground arith) (ground arith)
      ∙ sym (emit_step g n out (ground arith))
]

pub print_more : (n : ℕ) → 10 ≤ n → print_nat n ≡ print_nat (n / 10) ++ (b'0' + n % 10) ∷ []
unfolding print_nat
print_more n h =
    emit_step n n [] h
    ∙ emit-append n (n / 10) ((b'0' + n % 10) ∷ []) (omega arith)
    ∙ ap (λ (t : Bytes). t ++ (b'0' + n % 10) ∷ [])
        (emit_fuel n (suc (n / 10)) (n / 10) [] (omega arith) (omega arith))

pub print_two : (n : ℕ) → 10 ≤ n → n < 100 → print_nat n ≡ (b'0' + n / 10) ∷ (b'0' + n % 10) ∷ []
print_two n h k = rw (print_more n h, print_one (n / 10) (omega arith)) refl

pub print_three :
    (n : ℕ)
    → 100 ≤ n
    → n < 1000
    → print_nat n ≡ (b'0' + n / 100) ∷ (b'0' + n / 10 % 10) ∷ (b'0' + n % 10) ∷ []
print_three n h k =
    let first : n / 10 / 10 ≡ n / 100 = omega arith in
    rw (print_more n (omega arith), print_two (n / 10) (omega arith) (omega arith), first) refl

-- Behind the other digits stand those of the remainder.
pub print_four :
    (n : ℕ) → 1000 ≤ n → (front : Bytes) × (print_nat n ≡ front ++ four_digits (n % 10000))
unfolding four_digits
print_four n h = elim (Bool-cases (ltb n 10000)) [
  | inl e ↦
      let small : n < 10000 = ground arith in
      let same : n % 10000 ≡ n = omega arith in
      let first : n / 10 / 100 ≡ n / 1000 = omega arith in
      let second : n / 10 / 10 ≡ n / 100 = omega arith in
      (
        [],
        rw
            (
              print_more n (omega arith),
              print_three (n / 10) (omega arith) (omega arith),
              same,
              first,
              second,
            )
            refl,
      )
  | inr e ↦
      let large : 10000 ≤ n = ground arith in
      let third : n / 10 / 10 / 10 % 10 ≡ n % 10000 / 1000 = omega arith in
      let second : n / 10 / 10 % 10 ≡ n % 10000 / 100 % 10 = omega arith in
      let first : n / 10 % 10 ≡ n % 10000 / 10 % 10 = omega arith in
      let last : n % 10 ≡ n % 10000 % 10 = omega arith in
      (
        print_nat (n / 10 / 10 / 10 / 10),
        rw
            (
              print_more n (omega arith),
              print_more (n / 10) (omega arith),
              print_more (n / 10 / 10) (omega arith),
              print_more (n / 10 / 10 / 10) (omega arith),
            )
            (simp append_assoc (rw (third, second, first, last) refl)),
      )
]
