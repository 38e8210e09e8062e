-- ===== src/Race/Send/Tests.antt =====
-- The theorem on the times of messages for three messages.
use race_slothy.Common.{◌≡◌, refl, [], ◌∷◌, arith, codes, false, pos, ◌++◌}
use race_slothy.Race.Message.{Message, number_messages}
use race_slothy.Race.Send.{resized, send_periodically}
use race_slothy.Race.Send.Schedule.{IsOnTime, send_periodically-number_messages}

abbrev first : Message
first = record {
  message_content = codes "run 0000";
  generated = [];
  persona_of_recipient = codes "race-client-00002";
  send_time = pos 500;
  is_nm_bypass = false;
  bypass_route = [];
}

-- Each sleep ends five milliseconds late, and each sending takes 900.
send_periodically-number_messages_example :
    IsOnTime 5 first 4 1000 3 0
      (send_periodically (λ i. 5) (λ i. 900) (pos 400) (number_messages first 4 1000 3 0))
send_periodically-number_messages_example =
    send_periodically-number_messages first 4 1000 5 (λ i. 5) (λ i. 900) 3 (pos 400) (omega arith)
      (λ j. omega arith) (λ j. omega arith)

-- A text of two bytes gets two zeros.
short :
    (resized (record first { message_content = codes "ab" })).message_content
    ≡ codes "ab" ++ 0 ∷ 0 ∷ []
unfolding resized
short = refl
