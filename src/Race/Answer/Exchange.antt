-- ===== src/Race/Answer/Exchange.antt =====
-- A request of the plugin, and what the registry answers to it.
use race_slothy.Registry.Laws.{shard_exists-get}
use race_slothy.Common.{
  ◌<◌, ◌⊎◌, inl, inr, Option, ℕ, ◌≡◌, refl, false, none, some, List, [], ◌∷◌, ◌++◌, arith, Bytes,
  codes, ltb, length, length-append, bytes_eq, ℤ, append-nil, All,
}
use race_slothy.Registry.{Sqlite, Step, row, done, error, shard_exists, get_shard_data}
use race_slothy.Registry.Http.{c_str}
use race_slothy.Race.{JsonLib, ok, as_invalid}
use race_slothy.Race.Message.{Message, parse_send_message, create_message, test_id_of, is_empty}
use race_slothy.Race.Answer.{
  answered, by_client, send_response, answer_of, handle_registry_message, send_message,
  input_command, send_all, send_request, not_in_database,
}

-- The text of the request: the test id that stands for none, a blank and the name.
abbrev pub request_text : Bytes → Bytes
request_text artifact_name = codes "default " ++ artifact_name

module _ (lib : JsonLib) where
  send_request_lem :
      (now : ℤ) (pool : Bytes) (begin_index : ℕ → ℕ) (sort : List Message → List Message)
      (registry_address artifact_name : Bytes)
      → send_request lib now pool begin_index sort registry_address artifact_name
        ≡ ok (by_client (request_text artifact_name) registry_address ∷ [])
  unfolding send_request input_command create_message parse_send_message as_invalid send_all
      send_message test_id_of is_empty bytes_eq
  send_request_lem now pool begin_index sort registry_address artifact_name =
      simp (lib.at-object, lib.to_text-text, append-nil)

c_str_whole : (text : Bytes) → All (λ (c : ℕ). 0 < c) text → c_str text ≡ text
unfolding c_str
c_str_whole [] h = refl
c_str_whole (c ∷ text) (here, h) = ground (arith, c_str_whole text h)

step_cases : (s : Step) → ((json : Bytes) × (s ≡ row json)) ⊎ (s ≡ done) ⊎ (s ≡ error)
step_cases (row json) = inl (json, refl)
step_cases done = inr (inl refl)
step_cases error = inr (inr refl)

module _ (sql : Sqlite) (db : sql.Db) where
  answer_of-found :
      (name json : Bytes) → get_shard_data sql db name ≡ some json → answer_of sql db name ≡ json
  unfolding answer_of
  answer_of-found name json h =
      let there = (shard_exists-get sql db name).1 (json, h) in rw (answer_of, there, h) refl

  answer_of-absent :
      (name : Bytes) → get_shard_data sql db name ≡ none → answer_of sql db name ≡ not_in_database
  unfolding answer_of shard_exists get_shard_data
  answer_of-absent name h = elim (step_cases (sql.select db name)) [
    | inl (json, e) ↦
        absurd
          (let there : get_shard_data sql db name ≡ some json = rw (get_shard_data, e) refl in cc)
    | inr (inl e) ↦ rw (answer_of, shard_exists, e) refl
    | inr (inr e) ↦ rw (answer_of, shard_exists, e) refl
  ]

  answer_of_lem :
      (name : Bytes) (stored : Option Bytes)
      → get_shard_data sql db name ≡ stored
      → answer_of sql db name ≡ (elim stored [ none ↦ not_in_database | some json ↦ json ])
  answer_of_lem name none e = answer_of-absent name e
  answer_of_lem name (some json) e = answer_of-found name json e

  -- For a name without zero bytes, as long as the freed text still holds it: the plugin sends one
  -- message to the registry, and the registry's handler sends exactly the JSON that the database has
  -- under that name back to the persona that asked, with its index, and where it has none the text
  -- that says so. The other error text is never sent.
  pub handle_registry_message-request :
      (lib : JsonLib) (now : ℤ) (pool : Bytes) (begin_index : ℕ → ℕ)
      (sort : List Message → List Message) (registry_address artifact_name persona : Bytes)
      (amp_index : ℤ) (freed : Bytes → Bytes)
      → All (λ (c : ℕ). 0 < c) artifact_name
      → freed artifact_name ≡ artifact_name
      → (text : Bytes) × (send_request lib now pool begin_index sort registry_address artifact_name
          ≡ ok (by_client text registry_address ∷ []))
        × (handle_registry_message sql freed db text persona amp_index
            ≡ answered (
                send_response
                  (elim (get_shard_data sql db artifact_name) [
                    | none ↦ not_in_database
                    | some json ↦ json
                  ])
                  persona
                  amp_index))
  unfolding handle_registry_message
  handle_registry_message-request lib now pool begin_index sort registry_address artifact_name
        persona amp_index freed whole held =
      let long : ltb (length (request_text artifact_name)) 8 ≡ false =
        ground (arith, length-append (codes "default ") artifact_name) in
      (
        request_text artifact_name,
        send_request_lem lib now pool begin_index sort registry_address artifact_name,
        rw
            (
              handle_registry_message,
              long,
              c_str_whole artifact_name whole,
              held,
              answer_of_lem artifact_name (get_shard_data sql db artifact_name) refl,
            )
            refl,
      )
