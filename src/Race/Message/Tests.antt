-- ===== src/Race/Message/Tests.antt =====
-- The theorems on messages at concrete commands.
use race_slothy.Common.{
  bytes_eq, ℕ, ◌+◌, ◌*◌, ◌%◌, ◌≡◌, refl, some, List, [], ◌++◌, arith, Bytes, codes, ltb,
  if◌then◌else◌, length, length-replicate, replicate, get_elem?, four_digits, pos, ◌+ℤ◌,
}
use race_slothy.Race.{ok}
use race_slothy.Race.Toy.{Value, num, str, obj, end, field, toy_json}
use race_slothy.Race.Message.{Message, length_limit, test_id_of, parse_auto_message}
use race_slothy.Race.Message.Auto.{parse_auto_message-numbered}

letters : ℕ → Bytes
letters n = replicate n b'a'

length-letters : (n : ℕ) → length (letters n) ≡ n
unfolding letters
length-letters n = length-replicate n b'a'

abbrev command : Value
command = obj (
    field (codes "recipient") (str (codes "race-client-00002")) (
      field (codes "period") (num 1000) (
        field (codes "quantity") (num 20) (
          field (codes "size") (num 140) (
            field (codes "test-id") (str (codes "run"))
              (field (codes "nm-bypass-route") (str []) end))))))

parse_auto_message-numbered_example :
    (messages : List Message) × (m : Message) × (extra : Bytes) × (parse_auto_message toy_json
        (pos 5000)
        (letters length_limit)
        (λ n. 0)
        (codes "nm-bypass-route")
        command
      ≡ ok messages)
    × (length messages ≡ 20)
    × (get_elem? messages 7 ≡ some m)
    × (m.message_content
        ≡ (test_id_of (codes "run") ++ codes " ") ++ (four_digits (7 % 10000) ++ extra))
    × (length m.message_content + length m.generated ≡ (
        if ltb (length (test_id_of (codes "run")) + 5) 140
        then 140
        else length (test_id_of (codes "run")) + 5))
    × (m.send_time ≡ pos 5000 +ℤ pos (1000 * 7))
unfolding bytes_eq
parse_auto_message-numbered_example =
    parse_auto_message-numbered toy_json (pos 5000) (letters length_limit) (λ n. 0)
      (length-letters length_limit) (λ n h. omega arith) (codes "nm-bypass-route") command
      (codes "race-client-00002") (codes "run") [] 1000 20 140 (num 1000) (num 20) (num 140) refl
      refl refl refl refl refl refl refl refl (omega arith) 7 (omega arith)
