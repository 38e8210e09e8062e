-- ===== src/Race/Message/Auto.antt =====
-- Message.cpp: the messages of an `auto` command.
use race_slothy.Common.{
  ℕ, zero, suc, ◌+◌, ◌-◌, ◌*◌, ◌%◌, ◌≤◌, ◌<◌, ◌≡◌, refl, ap, ◌∙◌, false, inl, inr, Bool-cases, some,
  List, [], ◌++◌, append_assoc, append-nil, arith, Bytes, codes, ltb, if◌then◌else◌, length,
  length-append, length-take, length-drop, get_elem?, take, drop, take_left, drop_left, replicate,
  four_digits, not, ℤ, pos, ◌+ℤ◌,
}
use race_slothy.Race.{JsonLib, text_at, ok}
use race_slothy.Race.Message.{
  Message, sequence_number_to_string, sequence_string_length, replace_at, number_messages,
  get_random_string_from_pool, fill_up, length_limit, test_id_of, parse_auto_message, is_empty,
}
use race_slothy.Race.Message.Sequence.{sequence_digits}

-- The message with number `i`.
abbrev numbered : Message → ℕ → ℕ → ℕ → Message
numbered m start period i = record m {
  send_time = m.send_time +ℤ pos (period * i);
  message_content =
      replace_at start sequence_string_length (sequence_number_to_string i) m.message_content;
}

length-number_messages :
    (m : Message) (start period count i : ℕ)
    → length (number_messages m start period count i) ≡ count
unfolding number_messages
length-number_messages m start period zero i = refl
length-number_messages m start period (suc count) i =
    ap suc (length-number_messages m start period count (i + 1))

get-number_messages :
    (m : Message) (start period count i k : ℕ)
    → k < count
    → get_elem? (number_messages m start period count i) k ≡ some (numbered m start period (i + k))
unfolding number_messages
get-number_messages m start period zero i k h = absurd (omega arith)
get-number_messages m start period (suc count) i zero h =
    let same : i + 0 ≡ i = omega arith in rw same refl
get-number_messages m start period (suc count) i (suc k) h =
    let same : i + suc k ≡ i + 1 + k = omega arith in
    rw same (get-number_messages m start period count (i + 1) k (omega arith))

-- The four zeros behind the test id and a blank are replaced by a sequence number.
replace_zeros :
    (test_id extra digits : Bytes)
    → replace_at
        (length test_id + 1)
        4
        digits
        ((test_id ++ (codes " " ++ replicate 4 b'0')) ++ extra)
      ≡ (test_id ++ codes " ") ++ (digits ++ extra)
unfolding replace_at
replace_zeros test_id extra digits =
    let front : Bytes = test_id ++ codes " " in
    let zeros : Bytes = replicate 4 b'0' in
    let size : length front ≡ length test_id + 1 = length-append test_id (codes " ") in
    let size' : length (front ++ zeros) ≡ length test_id + 1 + 4 =
      omega (arith, length-append front zeros) in
    let whole : (test_id ++ (codes " " ++ zeros)) ++ extra ≡ front ++ (zeros ++ extra) =
      simp append_assoc in
    let whole' : (test_id ++ (codes " " ++ zeros)) ++ extra ≡ (front ++ zeros) ++ extra =
      simp append_assoc in
    ap
      (λ (t : Bytes).
        take (length test_id + 1) t
        ++ (digits ++ drop (length test_id + 1 + 4) ((test_id ++ (codes " " ++ zeros)) ++ extra)))
      whole
    ∙ ap
        (λ (t : Bytes).
          t
          ++ (digits ++ drop (length test_id + 1 + 4) ((test_id ++ (codes " " ++ zeros)) ++ extra)))
        (take_left front (zeros ++ extra) size)
    ∙ ap (λ (t : Bytes). front ++ (digits ++ drop (length test_id + 1 + 4) t)) whole'
    ∙ ap (λ (t : Bytes). front ++ (digits ++ t)) (drop_left (front ++ zeros) extra size')

start_length :
    (test_id : Bytes) → length (test_id ++ (codes " " ++ replicate 4 b'0')) ≡ length test_id + 5
start_length test_id = length-append test_id (codes " " ++ replicate 4 b'0')

numbered_length :
    (test_id extra : Bytes) (n : ℕ)
    → length ((test_id ++ codes " ") ++ (four_digits n ++ extra))
      ≡ length ((test_id ++ (codes " " ++ replicate 4 b'0')) ++ extra)
unfolding four_digits
numbered_length test_id extra n = omega (
  arith,
  length-append (test_id ++ codes " ") (four_digits n ++ extra),
  length-append test_id (codes " "),
  length-append (test_id ++ (codes " " ++ replicate 4 b'0')) extra,
  start_length test_id,
)

module _ (lib : JsonLib) (now : ℤ) (pool : Bytes) (begin_index : ℕ → ℕ)
    (pool_size : length pool ≡ length_limit)
    (drawn : (n : ℕ) → n ≤ length_limit → begin_index n + n ≤ length_limit) where
  -- What is put behind a message, and the sizes.
  fill_up_sizes :
      (message : Bytes) (size : ℕ)
      → size ≤ length_limit
      → (extra random : Bytes) × (fill_up lib now pool begin_index message size
          ≡ ok (message ++ extra, random))
        × (length (message ++ extra) + length random
            ≡ (if ltb (length message) size then size else length message))
  unfolding fill_up get_random_string_from_pool
  fill_up_sizes message size h = elim (Bool-cases (ltb (length message) size)) [
    | inr e ↦ ([], [], rw (fill_up, e, append-nil) refl, rw (e, append-nil) (omega arith))
    | inl e ↦
        let longer : length (message ++ codes " ") ≡ length message + 1 =
          length-append message (codes " ") in
        let rest : ℕ = size - length (message ++ codes " ") in
        let fits : ltb length_limit rest ≡ false = ground arith in
        let room = drawn rest (ground arith) in
        let taken : length (take rest (drop (begin_index rest) pool)) ≡ rest = omega (
          arith,
          length-take rest (drop (begin_index rest) pool),
          length-drop (begin_index rest) pool,
          pool_size,
        ) in
        (
          codes " ",
          take rest (drop (begin_index rest) pool),
          rw (fill_up, e) (rw fits refl),
          rw e (ground (arith, taken, longer)),
        )
  ]

  -- For a command with all of its members, a size of at most 10 ^ 7 and a pool of 10 ^ 7
  -- characters: there are as many messages as asked for. Message `i` begins with the test id, a
  -- blank and the four last digits of `i`, is sent `i` periods after the first one, and is as long as
  -- asked for, or as its beginning where that is longer.
  pub parse_auto_message-numbered :
      (route_key : Bytes) (payload : lib.Json) (recipient given route : Bytes)
      (period count size : ℕ) (period_value count_value size_value : lib.Json)
      → text_at lib payload (codes "recipient") ≡ ok recipient
      → lib.at payload (codes "period") ≡ some period_value
      → lib.to_u32 period_value ≡ some period
      → lib.at payload (codes "quantity") ≡ some count_value
      → lib.to_u32 count_value ≡ some count
      → lib.at payload (codes "size") ≡ some size_value
      → lib.to_u64 size_value ≡ some size
      → text_at lib payload (codes "test-id") ≡ ok given
      → text_at lib payload route_key ≡ ok route
      → size ≤ length_limit
      → (i : ℕ) → i < count
      → (messages : List Message) × (m : Message) × (extra : Bytes) × (parse_auto_message lib now
            pool begin_index route_key payload
          ≡ ok messages)
        × (length messages ≡ count)
        × (get_elem? messages i ≡ some m)
        × (m.message_content
            ≡ (test_id_of given ++ codes " ") ++ (four_digits (i % 10000) ++ extra))
        × (length m.message_content + length m.generated ≡ (
            if ltb (length (test_id_of given) + 5) size
            then size
            else length (test_id_of given) + 5))
        × (m.send_time ≡ now +ℤ pos (period * i))
  unfolding parse_auto_message
  parse_auto_message-numbered route_key payload recipient given route period count size period_value
        count_value size_value has_recipient has_period is_period has_count is_count has_size
        is_size has_id has_route fits i below =
      let test_id : Bytes = test_id_of given in
      let start : Bytes = test_id ++ (codes " " ++ replicate 4 b'0') in
      let (extra, random, filled, total) = fill_up_sizes start size fits in
      let first : Message = record {
        message_content = start ++ extra;
        generated = random;
        persona_of_recipient = recipient;
        send_time = now;
        is_nm_bypass = not (is_empty route);
        bypass_route = route;
      } in
      let place = length test_id + 1 in
      let from_zero : 0 + i ≡ i = omega arith in
      let written : replace_at place 4 (sequence_number_to_string i) (start ++ extra)
          ≡ (test_id ++ codes " ") ++ (four_digits (i % 10000) ++ extra) =
        rw sequence_digits (replace_zeros test_id extra (four_digits (i % 10000))) in
      (
        number_messages first place period count 0,
        numbered first place period i,
        extra,
        rw (parse_auto_message, has_recipient, has_period, is_period, has_count, is_count, has_size)
            (rw (is_size, has_id, has_route, filled) refl),
        length-number_messages first place period count 0,
        get-number_messages first place period count 0 i below
            ∙ ap (λ (k : ℕ). some (numbered first place period k)) from_zero,
        written,
        ap (λ (k : ℕ). k + length random)
              (ap length written ∙ numbered_length test_id extra (i % 10000))
            ∙ total
            ∙ ap (λ (k : ℕ). if ltb k size then size else k) (start_length test_id),
        refl,
      )
