-- ===== src/Race/Lookup/Tests.antt =====
-- The request for an artifact that the registry has, and for one that it does not have.
use race_slothy.Common.{
  ◌≡◌, refl, true, Option, none, some, [], ◌∷◌, ◌++◌, Bytes, codes, arith, bytes_eq, if◌then◌else◌,
  pos,
}
use race_slothy.Registry.{get_shard_data, shard_exists}
use race_slothy.Registry.Toy.{Table, memory}
use race_slothy.Registry.Http.{c_str}
use race_slothy.Race.{ok, as_invalid}
use race_slothy.Race.Toy.{Value, null, str, obj, end, field, toy_json}
use race_slothy.Race.Message.{create_message, parse_send_message, test_id_of, is_empty}
use race_slothy.Race.Answer.{
  answered, by_client, ClrMsg, send_response, answer_of, handle_registry_message, not_in_database,
  send_message, input_command, send_all, send_request,
}
use race_slothy.Race.Await.{has_members, entry_name}
use race_slothy.Race.Await.Wakeup.{
  starting, waiting, returned, System, message, notify, wait, scan, put, tell, begin, Run, stay, go,
}
use race_slothy.Race.Await.Unanswered.{IsOpen}
use race_slothy.Race.Lookup.{stored_returned, absent_unanswered}

abbrev core : Bytes
core = codes "libcore.so"

abbrev gone : Bytes
gone = codes "libgone.so"

abbrev shelf : Table
shelf = (core, codes "J") ∷ []

abbrev core_json : Value
core_json = obj (
    field (codes "name") (str core) (
      field (codes "so_sharded") null (
        field (codes "so") null
          (field (codes "json_sharded") null (field (codes "json") null end)))))

-- A parser of one text.
abbrev parse : Bytes → Option Value
parse text = if bytes_eq text (codes "J") then some core_json else none

abbrev registry : Bytes
registry = codes "race-registry-00001"

abbrev client : Bytes
client = codes "race-client-00001"

asks_core :
    send_request toy_json (pos 0) [] (λ n. 0) (λ messages. messages) registry core
    ≡ ok (by_client (codes "default libcore.so") registry ∷ [])
unfolding send_request input_command create_message parse_send_message as_invalid send_all
    send_message test_id_of is_empty bytes_eq
asks_core = refl

asks_gone :
    send_request toy_json (pos 0) [] (λ n. 0) (λ messages. messages) registry gone
    ≡ ok (by_client (codes "default libgone.so") registry ∷ [])
unfolding send_request input_command create_message parse_send_message as_invalid send_all
    send_message test_id_of is_empty bytes_eq
asks_gone = refl

abbrev core_answer : ClrMsg
core_answer = record { msg = codes "J"; to_persona = client; amp_index = pos 0 }

abbrev gone_answer : ClrMsg
gone_answer = record { msg = not_in_database; to_persona = client; amp_index = pos 0 }

answers_core :
    handle_registry_message memory (λ b. b) shelf (codes "default libcore.so") client (pos 0)
    ≡ answered core_answer
unfolding handle_registry_message answer_of shard_exists get_shard_data send_response c_str bytes_eq
answers_core = refl

answers_gone :
    handle_registry_message memory (λ b. b) shelf (codes "default libgone.so") client (pos 0)
    ≡ answered gone_answer
unfolding handle_registry_message answer_of shard_exists get_shard_data send_response c_str bytes_eq
answers_gone = refl

core_stored : get_shard_data memory shelf core ≡ some (codes "J")
unfolding get_shard_data bytes_eq
core_stored = refl

gone_absent : get_shard_data memory shelf gone ≡ none
unfolding get_shard_data bytes_eq
gone_absent = refl

core_parsed : parse (c_str (codes "J")) ≡ some core_json
unfolding c_str bytes_eq
core_parsed = refl

text_refused : parse (c_str not_in_database) ≡ none
unfolding c_str bytes_eq
text_refused = refl

core_full : has_members toy_json parse core_json ≡ true
unfolding has_members bytes_eq
core_full = refl

core_named : entry_name toy_json parse core_json ≡ some core
unfolding entry_name bytes_eq
core_named = refl

abbrev listening : System Value
listening = record { queue = []; to_notify = 0; phase = waiting }

stored_returned_example :
    (t : System Value) × Run toy_json parse core
      (message (codes "J") ∷ notify ∷ scan ∷ [])
      listening
      t
    × (t.phase ≡ returned core_json)
    × (t.queue ≡ [])
stored_returned_example =
    stored_returned memory toy_json parse shelf (pos 0) [] (λ n. 0) (λ messages. messages) registry
      core client (pos 0) (λ b. b) (ground arith) refl (codes "default libcore.so") core_answer
      asks_core answers_core (codes "J") core_json listening core_stored core_parsed core_full
      core_named refl tt

-- The answer comes before the wait begins.
abbrev fresh : System Value
fresh = record { queue = []; to_notify = 0; phase = starting }

abbrev told : System Value
told = record { queue = not_in_database ∷ []; to_notify = 1; phase = starting }

abbrev quiet : System Value
quiet = record { queue = not_in_database ∷ []; to_notify = 0; phase = starting }

abbrev stuck : System Value
stuck = record { queue = not_in_database ∷ []; to_notify = 0; phase = waiting }

absent_unanswered_example : IsOpen stuck.phase × (stuck.queue ≡ [] ++ not_in_database ∷ [])
absent_unanswered_example =
    absent_unanswered memory toy_json parse shelf (pos 0) [] (λ n. 0) (λ messages. messages)
      registry gone client (pos 0) (λ b. b) (ground arith) refl (codes "default libgone.so")
      gone_answer asks_gone answers_gone (message not_in_database ∷ notify ∷ wait ∷ []) fresh stuck
      gone_absent text_refused
      (go (message not_in_database) (notify ∷ wait ∷ []) fresh told stuck
        (put not_in_database fresh)
        (go notify (wait ∷ []) told quiet stuck (tell told 0 refl)
          (go wait [] quiet stuck stuck (begin quiet refl) (stay stuck))))
      refl tt refl
