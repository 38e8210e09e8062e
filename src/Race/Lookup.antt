-- ===== src/Race/Lookup.antt =====
-- slothy-race.cpp: `get_artifact_registry_info` as a whole, from the request over the registry's
-- answer to what `awaitMessageWithHeader` returns.
mod Tests
use mathlib.Core.Path.{subst}
use race_slothy.Common.{
  ◌<◌, ◌≡◌, refl, sym, ap, ◌∙◌, ℕ, Option, none, some, true, List, [], ◌∷◌, ◌++◌, Bytes, All, ℤ,
}
use race_slothy.Registry.{Sqlite, get_shard_data}
use race_slothy.Registry.Http.{c_str}
use race_slothy.Race.{JsonLib, Result, ok, threw}
use race_slothy.Race.Message.{Message}
use race_slothy.Race.Answer.{
  Handled, answered, out_of_range, Sent, by_client, by_route, ClrMsg, send_response,
  handle_registry_message, not_in_database, send_request,
}
use race_slothy.Race.Answer.Exchange.{request_text, handle_registry_message-request}
use race_slothy.Race.Await.{invalid, complete, entry_of, has_members, entry_name}
use race_slothy.Race.Await.Scan.{IsOther, AllOther}
use race_slothy.Race.Await.Wakeup.{
  starting, waiting, returned, System, Event, message, notify, scan, Run,
}
use race_slothy.Race.Await.Waiting.{wait-served}
use race_slothy.Race.Await.Unanswered.{IsOpen, messages_of, wait_unanswered}

-- The texts in a first message that is sent, and in an answer.
abbrev sent_text : Sent → Bytes
sent_text (by_client text persona) = text
sent_text (by_route text persona route) = text

abbrev first_text : List Sent → Bytes
first_text [] = []
first_text (m ∷ ms) = sent_text m

abbrev request_sent : Result (List Sent) → Bytes
request_sent (ok ms) = first_text ms
request_sent (threw e) = []

abbrev answer_text : Handled → Bytes
answer_text (answered m) = m.msg
answer_text out_of_range = []

module _ (lib : JsonLib) (parse : Bytes → Option lib.Json) where
  entry_of-complete :
      (el : Bytes) (name : Bytes) (v : lib.Json)
      → parse (c_str el) ≡ some v
      → has_members lib parse v ≡ true
      → entry_name lib parse v ≡ some name
      → entry_of lib parse el ≡ complete name v
  unfolding entry_of
  entry_of-complete el name v parsed full named = rw (entry_of, parsed) (rw full (rw named refl))

  entry_of-invalid : (el : Bytes) → parse (c_str el) ≡ none → entry_of lib parse el ≡ invalid
  unfolding entry_of
  entry_of-invalid el refused = rw (entry_of, refused) refl

module _ (sql : Sqlite) (lib : JsonLib) (parse : Bytes → Option lib.Json) (db : sql.Db) (now : ℤ)
    (pool : Bytes) (begin_index : ℕ → ℕ) (sort : List Message → List Message)
    (registry_address artifact_name persona : Bytes) (amp_index : ℤ) (freed : Bytes → Bytes)
    (whole : All (λ (c : ℕ). 0 < c) artifact_name) (held : freed artifact_name ≡ artifact_name)
    (text : Bytes) (answer : ClrMsg)
    (sent : send_request lib now pool begin_index sort registry_address artifact_name
      ≡ ok (by_client text registry_address ∷ []))
    (handled : handle_registry_message sql freed db text persona amp_index ≡ answered answer) where
  answer_lem :
      answer.msg
      ≡ (elim (get_shard_data sql db artifact_name) [ none ↦ not_in_database | some json ↦ json ])
  unfolding send_response
  answer_lem =
      let (text', sent', handled') =
        handle_registry_message-request sql db lib now pool begin_index sort registry_address
          artifact_name persona amp_index freed whole held in
      let same : text ≡ text' = ap request_sent (sym sent ∙ sent') in
      ap answer_text (
        sym handled
        ∙ ap (λ (b : Bytes). handle_registry_message sql freed db b persona amp_index) same
        ∙ handled')

  -- A name without zero bytes, as long as the freed text still holds it, that the registry's database
  -- has a JSON for, which is accepted, has all five members and has this name in it: when the thread
  -- waits, on a queue with nothing for it, the registry's answer comes and is announced, the next
  -- pass returns this JSON and leaves the queue as it was.
  pub stored_returned :
      (json : Bytes) (v : lib.Json) (s : System lib.Json)
      → get_shard_data sql db artifact_name ≡ some json
      → parse (c_str json) ≡ some v
      → has_members lib parse v ≡ true
      → entry_name lib parse v ≡ some artifact_name
      → s.phase ≡ waiting
      → AllOther lib parse artifact_name s.queue
      → (t : System lib.Json) × Run lib parse artifact_name
          (message answer.msg ∷ notify ∷ scan ∷ [])
          s
          t
        × (t.phase ≡ returned v)
        × (t.queue ≡ s.queue)
  stored_returned json v s stored parsed full named is_waiting others =
      let is_json : answer.msg ≡ json = answer_lem ∙ rw stored refl in
      wait-served lib parse artifact_name s answer.msg v is_waiting others
        (rw is_json (entry_of-complete lib parse json artifact_name v parsed full named))

  -- A name without zero bytes, as long as the freed text still holds it, that the registry's database
  -- has nothing for, and a parser that does not accept the text that says so. When the only message
  -- that comes is the registry's answer, and the queue has nothing for the thread at first, the
  -- thread never leaves its loop, in whatever order the events follow one another, and the answer
  -- stays in the queue.
  pub absent_unanswered :
      (es : List Event) (s t : System lib.Json)
      → get_shard_data sql db artifact_name ≡ none
      → parse (c_str not_in_database) ≡ none
      → Run lib parse artifact_name es s t
      → messages_of es ≡ answer.msg ∷ []
      → AllOther lib parse artifact_name s.queue
      → s.phase ≡ starting
      → IsOpen t.phase × (t.queue ≡ s.queue ++ not_in_database ∷ [])
  absent_unanswered es s t absent refused run only others at_start =
      let is_text : answer.msg ≡ not_in_database = answer_lem ∙ rw absent refl in
      let messages : messages_of es ≡ not_in_database ∷ [] =
        only ∙ ap (λ (b : Bytes). b ∷ []) is_text in
      let nothing : IsOther artifact_name (entry_of lib parse not_in_database) =
        subst (IsOther artifact_name) (sym (entry_of-invalid lib parse not_in_database refused))
          tt in
      let (is_open, queue) =
        wait_unanswered lib parse artifact_name es s t run others
          (subst (AllOther lib parse artifact_name) (sym messages) (nothing, tt))
          (subst IsOpen (sym at_start) tt) in
      (is_open, queue ∙ ap (λ (q : List Bytes). s.queue ++ q) messages)
