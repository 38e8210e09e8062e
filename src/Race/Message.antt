-- ===== src/Race/Message.antt =====
-- registry-client/src/race/message/Message.cpp: the messages of a command, and with them
-- `createRandomString` and `getRandomStringFromPool` of RaceUtil.cpp. A time is a number of
-- milliseconds since the epoch of `system_clock`, whose count does not overflow. What the random
-- engine gives is an argument.
pub mod Sequence
pub mod Auto
mod Tests
use race_slothy.Common.{
  ℕ, zero, suc, ◌+◌, ◌-◌, ◌*◌, Bool, not, true, false, Option, none, some, List, [], ◌∷◌, ◌++◌,
  Bytes, codes, ltb, bytes_eq, if◌then◌else◌, length, take, drop, replicate, get_or, print_nat, ℤ,
  pos, ◌+ℤ◌,
}
use race_slothy.Race.{
  JsonLib, invalid_argument, Result, ok, threw, ◌>>=◌, or_json, as_invalid, text_at, value_or,
}

pub record Message : Type 0 where
  pub message_content : Bytes
  pub generated : Bytes
  pub persona_of_recipient : Bytes
  pub send_time : ℤ
  pub is_nm_bypass : Bool
  pub bypass_route : Bytes

abbrev pub sequence_string_length : ℕ
sequence_string_length = 4

abbrev pub length_limit : ℕ
length_limit = 10000000

abbrev pub alphanum : Bytes
alphanum = codes "0123456789ABCDEFGHIJKLMNOPQRSTUVWXYZabcdefghijklmnopqrstuvwxyz"

-- `createRandomString` with what `dist(rand)` gives for each character
unfoldable pub create_random_string : (ℕ → ℕ) → ℕ → Bytes
create_random_string dist zero = []
create_random_string dist (suc n) =
    get_or alphanum (dist zero) 0 ∷ create_random_string (λ i. dist (suc i)) n

-- `getRandomStringFromPool` with the pool and the `begin_index` that was drawn for the length
unfoldable pub get_random_string_from_pool : Bytes → (ℕ → ℕ) → ℕ → Result Bytes
get_random_string_from_pool pool begin_index n =
    if ltb length_limit n then threw invalid_argument else ok (take n (drop (begin_index n) pool))

unfoldable pub sequence_number_to_string : ℕ → Bytes
sequence_number_to_string n =
    let s = print_nat n in
    if ltb (length s) sequence_string_length
    then replicate (sequence_string_length - length s) b'0' ++ s
    else drop (length s - sequence_string_length) s

unfoldable pub is_empty : Bytes → Bool
is_empty [] = true
is_empty (c ∷ s) = false

-- `if (testId.empty()) testId = "default";`
unfoldable pub test_id_of : Bytes → Bytes
test_id_of test_id = if is_empty test_id then codes "default" else test_id

-- `messageContent.replace(pos, n, s)` at a position in the text
unfoldable pub replace_at : ℕ → ℕ → Bytes → Bytes → Bytes
replace_at start n s content = take start content ++ (s ++ drop (start + n) content)

-- The messages of `parseAutoMessage` from number `i` on: the time is that of the first one and
-- `Millis(period * i)`, where the product of two numbers below 2 ^ 32 does not wrap.
unfoldable pub number_messages : Message → ℕ → ℕ → ℕ → ℕ → List Message
number_messages m position period zero i = []
number_messages m position period (suc count) i =
    record m {
      send_time = m.send_time +ℤ pos (period * i);
      message_content =
          replace_at position sequence_string_length (sequence_number_to_string i)
            m.message_content;
    }
    ∷ number_messages m position period count (i + 1)

module _ (lib : JsonLib) (now : ℤ) (pool : Bytes) (begin_index : ℕ → ℕ) where
  -- The name of the member with the route differs: `bypass-route` here, `ta1-bypass-route` in the
  -- plugin.
  unfoldable pub parse_send_message : Bytes → lib.Json → Result (List Message)
  parse_send_message route_key payload = do
    recipient ← text_at lib payload (codes "recipient")
    message ← text_at lib payload (codes "message")
    test_id ← text_at lib payload (codes "test-id")
    bypass_route ← text_at lib payload route_key
    ok (
        record {
          message_content = test_id_of test_id ++ (codes " " ++ message);
          generated = [];
          persona_of_recipient = recipient;
          send_time = now;
          is_nm_bypass = not (is_empty bypass_route);
          bypass_route = bypass_route;
        }
        ∷ [])

  -- The blank and the random text that make a message as long as asked for.
  unfoldable pub fill_up : Bytes → ℕ → Result (Bytes × Bytes)
  fill_up message message_length =
      if ltb (length message) message_length
      then (do
        generated ←
            get_random_string_from_pool pool begin_index
              (message_length - length (message ++ codes " "))
        ok (message ++ codes " ", generated))
      else ok (message, [])

  unfoldable pub parse_auto_message : Bytes → lib.Json → Result (List Message)
  parse_auto_message route_key payload = do
    recipient ← text_at lib payload (codes "recipient")
    period_value ← or_json (lib.at payload (codes "period"))
    period ← or_json (lib.to_u32 period_value)
    count_value ← or_json (lib.at payload (codes "quantity"))
    count ← or_json (lib.to_u32 count_value)
    size_value ← or_json (lib.at payload (codes "size"))
    message_length ← or_json (lib.to_u64 size_value)
    given ← text_at lib payload (codes "test-id")
    let test_id = test_id_of given
    bypass_route ← text_at lib payload route_key
    filled ←
        fill_up (test_id ++ (codes " " ++ replicate sequence_string_length b'0')) message_length
    ok (
        number_messages
          (record {
            message_content = filled.0;
            generated = filled.1;
            persona_of_recipient = recipient;
            send_time = now;
            is_nm_bypass = not (is_empty bypass_route);
            bypass_route = bypass_route;
          })
          (length test_id + 1) period count 0)

  -- One message of a plan, for a persona, and the count behind it; `test_id` ends in a blank.
  unfoldable pub plan_message : Bytes → ℤ → Bytes → Bytes → lib.Json → ℕ → Result (Message × ℕ)
  plan_message test_id start_time bypass_route persona message count = do
    time ← value_or lib lib.to_i32 message (codes "time") (pos 0)
    size ← value_or lib lib.to_u64 message (codes "size") 0
    text ← value_or lib lib.to_text message (codes "message") []
    filled ←
        (if ltb 0 size
          then fill_up (test_id ++ sequence_number_to_string count) size
          else ok (test_id ++ text, []))
    ok (
      record {
        message_content = filled.0;
        generated = filled.1;
        persona_of_recipient = persona;
        send_time = start_time +ℤ time;
        is_nm_bypass = not (is_empty bypass_route);
        bypass_route = bypass_route;
      },
      if ltb 0 size then count + 1 else count,
    )

  unfoldable pub persona_messages :
      Bytes → ℤ → Bytes → Bytes → List lib.Json → ℕ → Result (List Message)
  persona_messages test_id start_time bypass_route persona [] count = ok []
  persona_messages test_id start_time bypass_route persona (message ∷ rest) count = do
    first ← plan_message test_id start_time bypass_route persona message count
    others ← persona_messages test_id start_time bypass_route persona rest first.1
    ok (first.0 ∷ others)

  unfoldable pub plan_messages : Bytes → ℤ → Bytes → List (Bytes × lib.Json) → Result (List Message)
  plan_messages test_id start_time bypass_route [] = ok []
  plan_messages test_id start_time bypass_route ((persona, messages) ∷ rest) = do
    first ← persona_messages test_id start_time bypass_route persona (lib.elements messages) 0
    others ← plan_messages test_id start_time bypass_route rest
    ok (first ++ others)

  -- `sort` is `std::sort` by `sendTime`. A `catch (std::exception &)` is around all of it.
  unfoldable pub parse_test_plan_message :
      Bytes → (List Message → List Message) → lib.Json → Result (List Message)
  parse_test_plan_message route_key sort payload = as_invalid (do
    plan ← or_json (lib.at payload (codes "plan"))
    start_time ← value_or lib lib.to_i64 plan (codes "start-time") now
    given ← value_or lib lib.to_text plan (codes "test-id") []
    bypass_route ← value_or lib lib.to_text plan route_key []
    entries ← or_json (lib.entries (lib.member_of plan (codes "messages")))
    messages ← plan_messages (test_id_of given ++ codes " ") start_time bypass_route entries
    ok (sort messages))

  -- The members with the route are `bypass-route` for a manual message and `nm-bypass-route` for
  -- the others, and `ta1-bypass-route` in the plugin.
  unfoldable pub create_message :
      Bytes → Bytes → (List Message → List Message) → lib.Json → Result (List Message)
  create_message send_route other_route sort input =
      let command : Result (List Message) = (do
        payload ← or_json (lib.at input (codes "payload"))
        send_type ← text_at lib payload (codes "send-type")
        if bytes_eq send_type (codes "manual")
            then parse_send_message send_route payload
            else if bytes_eq send_type (codes "auto")
            then parse_auto_message other_route payload
            else if bytes_eq send_type (codes "plan")
            then parse_test_plan_message other_route sort payload
            else threw invalid_argument) in
      as_invalid command
