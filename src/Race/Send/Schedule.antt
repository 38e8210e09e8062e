-- ===== src/Race/Send/Schedule.antt =====
-- RaceInterface.cpp: when and with what text `sendPeriodically` sends the messages.
use race_slothy.Common.{
  append_assoc, four_digits, take, drop, ℕ, suc, zero, ◌+◌, ◌-◌, ◌*◌, ◌%◌, ◌≤◌, ◌≡◌, refl, ap, ◌∙◌,
  ◌⊎◌, false, true, inl, inr, Bool-cases, List, [], ◌∷◌, ◌++◌, arith, ℤ, pos, negsuc, ◌+ℤ◌, ◌≤ℤ◌,
  ltb_ℤ, ltb, Bytes, length, replicate, if◌then◌else◌,
}
use race_slothy.Race.Message.{Message, number_messages, replace_at}
use race_slothy.Race.Message.Sequence.{sequence_digits}
use race_slothy.Race.Answer.{Sent, by_route, by_client, send_message}
use race_slothy.Race.Send.{resized, sleep_until, send_periodically}

-- What is sent of a message: the content with as many zeros as are missing to four bytes, and then
-- the generated text, along the route if there is one.
unfoldable pub sent_of : Message → Sent
sent_of m =
    let text = m.message_content ++ (replicate (4 - length m.message_content) 0 ++ m.generated) in
    if m.is_nm_bypass
    then by_route text m.persona_of_recipient m.bypass_route
    else by_client text m.persona_of_recipient

-- The messages in their order, from the time on at which the thread is free: none before its time
-- or before the thread is free, and each as late as its sleep behind the later of the two.
unfoldable pub IsTimely : (ℕ → ℕ) → (ℕ → ℕ) → ℤ → List Message → List (ℤ × Sent) → Type 0
IsTimely late takes free [] [] = Unit
IsTimely late takes free [] (x ∷ out) = ⊥
IsTimely late takes free (m ∷ messages) [] = ⊥
IsTimely late takes free (m ∷ messages) ((t, sent) ∷ out) =
    (sent ≡ sent_of m)
    × (free ≤ℤ t)
    × (m.send_time ≤ℤ t)
    × ((t ≤ℤ (m.send_time +ℤ pos (late 0))) ⊎ (t ≤ℤ (free +ℤ pos (late 0))))
    × IsTimely (λ i. late (suc i)) (λ i. takes (suc i)) (t +ℤ pos (takes 0)) messages out

zeros_behind :
    (s t : Bytes)
    → (if ltb (length s) 4 then s ++ replicate (4 - length s) 0 else s) ++ t
      ≡ s ++ (replicate (4 - length s) 0 ++ t)
zeros_behind s t = elim (Bool-cases (ltb (length s) 4)) [
  | inl short ↦ rw short (append_assoc s (replicate (4 - length s) 0) t)
  | inr long ↦ let none_missing : 4 - length s ≡ 0 = ground arith in rw (long, none_missing) refl
]

sent_text : (m : Message) → send_message (resized m) ≡ sent_of m
unfolding send_message resized sent_of
sent_text m = rw (zeros_behind m.message_content m.generated) refl

grown : (a t : ℤ) (n : ℕ) → a ≤ℤ t → a ≤ℤ (t +ℤ pos n)
unfolding ◌+ℤ◌
grown (pos k) (pos t) n h = ground arith
grown (pos k) (negsuc t) n h = ground arith
grown (negsuc k) (pos t) n h = ground arith
grown (negsuc k) (negsuc t) n h = ground arith

at_least : (a : ℤ) → a ≤ℤ a
at_least (pos n) = omega arith
at_least (negsuc n) = omega arith

ltb_ℤ-before : (a b : ℤ) → ltb_ℤ a b ≡ true → a ≤ℤ b
ltb_ℤ-before a b h = ground arith

ltb_ℤ-behind : (a b : ℤ) → ltb_ℤ a b ≡ false → b ≤ℤ a
ltb_ℤ-behind a b h = ground arith

sleep_until-bounds :
    (late : ℕ) (now time : ℤ)
    → (now ≤ℤ sleep_until late now time)
      × (time ≤ℤ sleep_until late now time)
      × ((sleep_until late now time ≤ℤ (time +ℤ pos late))
          ⊎ (sleep_until late now time ≤ℤ (now +ℤ pos late)))
unfolding sleep_until
sleep_until-bounds late now time = elim (Bool-cases (ltb_ℤ now time)) [
  | inl e ↦
      rw (sleep_until, e)
        (
          grown now time late (ltb_ℤ-before now time e),
          grown time time late (at_least time),
          inl (at_least (time +ℤ pos late)),
        )
  | inr e ↦
      rw (sleep_until, e)
        (
          grown now now late (at_least now),
          grown time now late (ltb_ℤ-behind now time e),
          inr (at_least (now +ℤ pos late)),
        )
]

-- However late the sleeps end and however long the sending takes: every message is sent once, in the
-- order of the list, to its recipient and along its route, with zeros behind a content of fewer than
-- four bytes and the generated text behind that. None is sent before its time or before the one in
-- front of it has been sent, and it is sent as late as its sleep ends, behind the later of the two.
send_periodically-IsTimely :
    (late takes : ℕ → ℕ) (now : ℤ) (messages : List Message)
    → IsTimely late takes now messages (send_periodically late takes now messages)
unfolding send_periodically IsTimely
send_periodically-IsTimely late takes now [] = tt
send_periodically-IsTimely late takes now (m ∷ messages) =
    let (free, due, soon) = sleep_until-bounds (late 0) now m.send_time in
    (
      sent_text m,
      free,
      due,
      soon,
      send_periodically-IsTimely (λ i. late (suc i)) (λ i. takes (suc i))
          (sleep_until (late 0) now m.send_time +ℤ pos (takes 0)) messages,
    )

-- An automatic command's message number `i`: the four last digits of `i` are in its text from
-- `position` on, and its time is `i` periods behind that of the command.
abbrev numbered : Message → ℕ → ℕ → ℕ → Message
numbered m position period i = record m {
  send_time = m.send_time +ℤ pos (period * i);
  message_content =
      take position m.message_content
      ++ (four_digits (i % 10000) ++ drop (position + 4) m.message_content);
}

-- As many messages as asked for, from number `i` on, each `l` behind its time at most.
unfoldable pub IsOnTime : ℕ → Message → ℕ → ℕ → ℕ → ℕ → List (ℤ × Sent) → Type 0
IsOnTime l m position period zero i [] = Unit
IsOnTime l m position period zero i (x ∷ out) = ⊥
IsOnTime l m position period (suc count) i [] = ⊥
IsOnTime l m position period (suc count) i ((t, sent) ∷ out) =
    (sent ≡ sent_of (numbered m position period i))
    × ((m.send_time +ℤ pos (period * i)) ≤ℤ t)
    × (t ≤ℤ ((m.send_time +ℤ pos (period * i)) +ℤ pos l))
    × IsOnTime l m position period count (i + 1) out

not_later :
    (t d free : ℤ) (late l : ℕ)
    → free ≤ℤ d
    → late ≤ l
    → (t ≤ℤ (d +ℤ pos late)) ⊎ (t ≤ℤ (free +ℤ pos late))
    → t ≤ℤ (d +ℤ pos l)
unfolding ◌+ℤ◌
not_later t (pos d) (pos f) late l low small (inl h) = ground arith
not_later t (pos d) (negsuc f) late l low small (inl h) = ground arith
not_later t (negsuc d) (pos f) late l low small (inl h) = ground arith
not_later t (negsuc d) (negsuc f) late l low small (inl h) = ground arith
not_later t (pos d) (pos f) late l low small (inr h) = ground arith
not_later t (pos d) (negsuc f) late l low small (inr h) = ground arith
not_later t (negsuc d) (pos f) late l low small (inr h) = ground arith
not_later t (negsuc d) (negsuc f) late l low small (inr h) = ground arith

-- The thread is free again before the next time.
free_again :
    (t s : ℤ) (a l takes period b : ℕ)
    → t ≤ℤ ((s +ℤ pos a) +ℤ pos l)
    → takes + l ≤ period
    → a + period ≡ b
    → (t +ℤ pos takes) ≤ℤ (s +ℤ pos b)
unfolding ◌+ℤ◌
free_again (pos t) (pos s) a l takes period b h small e = ground arith
free_again (pos t) (negsuc s) a l takes period b h small e = ground arith
free_again (negsuc t) (pos s) a l takes period b h small e = ground arith
free_again (negsuc t) (negsuc s) a l takes period b h small e = ground arith

module _ (m : Message) (position period l : ℕ) where
  IsTimely-IsOnTime :
      (late takes : ℕ → ℕ) (free : ℤ) (count i : ℕ) (out : List (ℤ × Sent))
      → ((j : ℕ) → late j ≤ l)
      → ((j : ℕ) → takes j + l ≤ period)
      → free ≤ℤ (m.send_time +ℤ pos (period * i))
      → IsTimely late takes free (number_messages m position period count i) out
      → IsOnTime l m position period count i out
  unfolding IsTimely IsOnTime number_messages replace_at
  IsTimely-IsOnTime late takes free zero i [] soon short low h = tt
  IsTimely-IsOnTime late takes free zero i (x ∷ out) soon short low h = absurd h
  IsTimely-IsOnTime late takes free (suc count) i [] soon short low h = absurd h
  IsTimely-IsOnTime late takes free (suc count) i ((t, sent) ∷ out) soon short low
        (is, from_free, due, bound, rest) =
      let d = m.send_time +ℤ pos (period * i) in
      let within : t ≤ℤ (d +ℤ pos l) = not_later t d free (late 0) l low (soon 0) bound in
      (
        is
            ∙ ap
                (λ (digits : Bytes). sent_of (record m {
                  send_time = d;
                  message_content =
                      take position m.message_content
                      ++ (digits ++ drop (position + 4) m.message_content);
                }))
                (sequence_digits i),
        due,
        within,
        IsTimely-IsOnTime (λ j. late (suc j)) (λ j. takes (suc j)) (t +ℤ pos (takes 0)) count
            (i + 1) out (λ j. soon (suc j)) (λ j. short (suc j))
            (free_again t m.send_time (period * i) l (takes 0) period (period * (i + 1)) within
              (short 0) (grind arith))
            rest,
      )

  -- The messages of an automatic command, of which the first is not to be sent before `now`: if no
  -- sleep ends more than `l` late, and no sending takes so long that it and `l` are more than the
  -- period, all of them are sent in the order of their numbers. Message `i` is sent not before `i`
  -- periods after the first one's time and at most `l` later, so that lateness does not add up. What is
  -- sent is the text with the four last digits of `i` from `position` on, zeros if it is shorter than
  -- four bytes, and the generated text, to the recipient and along the route of the command.
  pub send_periodically-number_messages :
      (late takes : ℕ → ℕ) (count : ℕ) (now : ℤ)
      → now ≤ℤ m.send_time
      → ((j : ℕ) → late j ≤ l)
      → ((j : ℕ) → takes j + l ≤ period)
      → IsOnTime l m position period count 0
          (send_periodically late takes now (number_messages m position period count 0))
  send_periodically-number_messages late takes count now h soon short =
      IsTimely-IsOnTime late takes now count 0
        (send_periodically late takes now (number_messages m position period count 0)) soon short
        (grown now m.send_time (period * 0) h)
        (send_periodically-IsTimely late takes now (number_messages m position period count 0))
