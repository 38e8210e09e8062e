-- ===== src/Race/Send.antt =====
-- registry-client/src/race/RaceInterface.cpp and the plugin's copy of it: `sendPeriodically` and
-- `parseAndSendMessage`, with the times in milliseconds since the epoch of the clock.
pub mod Schedule
mod Tests
use race_slothy.Common.{
  ℕ, suc, ◌-◌, List, [], ◌∷◌, ◌++◌, Bytes, ltb, if◌then◌else◌, length, replicate, ℤ, pos, ◌+ℤ◌,
  ltb_ℤ,
}
use race_slothy.Race.{Exception, json_exception, invalid_argument, Result, ok, threw}
use race_slothy.Race.Message.{Message, sequence_string_length}
use race_slothy.Race.Answer.{Sent, send_message}

-- `if (size < sequenceStringLength) resize(sequenceStringLength)`, which appends zeros
unfoldable pub resized : Message → Message
resized m = record m {
  message_content =
      if ltb (length m.message_content) sequence_string_length
      then m.message_content ++ replicate (sequence_string_length - length m.message_content) 0
      else m.message_content;
}

-- When `sleep_until` returns, which may be late.
unfoldable pub sleep_until : ℕ → ℤ → ℤ → ℤ
sleep_until late now time = (if ltb_ℤ now time then time else now) +ℤ pos late

-- The messages that are sent, each with the time at which `sendMessage` is called. `late` says how
-- late each of the sleeps ends, and `takes` how long each `sendMessage` takes.
unfoldable pub send_periodically : (ℕ → ℕ) → (ℕ → ℕ) → ℤ → List Message → List (ℤ × Sent)
send_periodically late takes now [] = []
send_periodically late takes now (m ∷ messages) =
    let time = sleep_until (late 0) now m.send_time in
    (time, send_message (resized m))
    ∷ send_periodically (λ i. late (suc i)) (λ i. takes (suc i)) (time +ℤ pos (takes 0)) messages

-- `parseAndSendMessage` of what `createMessage` gives: an `invalid_argument` is caught.
unfoldable pub parse_and_send_message :
    (ℕ → ℕ) → (ℕ → ℕ) → ℤ → Result (List Message) → Result (List (ℤ × Sent))
parse_and_send_message late takes now (ok messages) = ok (send_periodically late takes now messages)
parse_and_send_message late takes now (threw invalid_argument) = ok []
parse_and_send_message late takes now (threw json_exception) = threw json_exception
