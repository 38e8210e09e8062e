-- ===== src/Race/Message/Sequence.antt =====
-- Message.cpp: the sequence numbers of messages.
use race_slothy.Common.{
  ℕ, ◌+◌, ◌-◌, ◌%◌, ◌≡◌, refl, false, inl, inr, Bool-cases, ◌++◌, arith, Bytes, ltb, length,
  length-append, drop_left, print_nat, four_digits, print_one, print_two, print_three, print_four,
}
use race_slothy.Race.Message.{sequence_number_to_string}

long_number :
    (n : ℕ) (front : Bytes)
    → print_nat n ≡ front ++ four_digits (n % 10000)
    → sequence_number_to_string n ≡ four_digits (n % 10000)
unfolding sequence_number_to_string
long_number n front printed =
    let long : length (front ++ four_digits (n % 10000)) ≡ length front + 4 =
      unfold four_digits in length-append front (four_digits (n % 10000)) in
    let whole : ltb (length front + 4) 4 ≡ false = ground arith in
    let cut : length front + 4 - 4 ≡ length front = omega arith in
    rw (printed, long, whole, cut, drop_left front (four_digits (n % 10000)) refl) refl

-- The four last digits of a sequence number, with zeros in front.
pub sequence_digits : (n : ℕ) → sequence_number_to_string n ≡ four_digits (n % 10000)
unfolding sequence_number_to_string four_digits
sequence_digits n = elim (Bool-cases (ltb n 10)) [
  | inl e ↦ rw (print_one n (ground arith)) (ground arith)
  | inr e ↦ elim (Bool-cases (ltb n 100)) [
    | inl e' ↦ rw (print_two n (ground arith) (ground arith)) (ground arith)
    | inr e' ↦ elim (Bool-cases (ltb n 1000)) [
      | inl e'' ↦ rw (print_three n (ground arith) (ground arith)) (ground arith)
      | inr e'' ↦ let (front, printed) = print_four n (ground arith) in long_number n front printed
    ]
  ]
]
