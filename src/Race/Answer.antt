-- ===== src/Race/Answer.antt =====
-- registry-client/src/race/RaceInterface.cpp: `handleRegistryMessage` and `sendResponse`, and the
-- request that artifact-manager-plugin/src/interfaces/race/slothy-race.cpp sends, with `sendMessage`
-- of RaceInterface.cpp. The spans of the tracer are left out.
pub mod Exchange
use race_slothy.Common.{
  ℕ, Bool, true, false, Option, none, some, List, [], ◌∷◌, ◌++◌, Bytes, codes, ltb, ◌==◌,
  if◌then◌else◌, length, drop, ℤ, pos, negsuc,
}
use race_slothy.Registry.{Sqlite, shard_exists, get_shard_data}
use race_slothy.Registry.Http.{c_str}
use race_slothy.Race.{JsonLib, Result, ok, threw, ◌>>=◌}
use race_slothy.Race.Message.{Message, create_message}

-- A message that is given to the network: its text, the persona that it is for, and the index of the
-- plugin of the sender, which the answer goes to.
pub record ClrMsg : Type 0 where
  pub msg : Bytes
  pub to_persona : Bytes
  pub amp_index : ℤ

-- The answer, or `std::out_of_range` of `substr`, which leaves the handler.
pub data Handled : Type 0 where
  answered : ClrMsg → Handled
  out_of_range : Handled

abbrev pub not_in_database : Bytes
not_in_database = codes "Shard does not exist in database"

abbrev pub not_in_row : Bytes
not_in_row = codes "Shard exists but not found"

unfoldable pub send_response : Bytes → Bytes → ℤ → ClrMsg
send_response msg destination amp_index = record {
  msg = msg;
  to_persona = destination;
  amp_index = amp_index;
}

module _ (sql : Sqlite) where
  unfoldable pub answer_of : sql.Db → Bytes → Bytes
  answer_of db shard_name = elim (shard_exists sql db shard_name) [
    | pos n ↦
        if n == 1
        then elim (get_shard_data sql db shard_name) [
          | none ↦ not_in_row
          | some data_text ↦ data_text
        ]
        else not_in_database
    | negsuc n ↦ not_in_database
  ]

  -- `shard_name` points into a text that is destroyed at the end of its line: `freed` is what is read
  -- there later instead of the text.
  unfoldable pub handle_registry_message : (Bytes → Bytes) → sql.Db → Bytes → Bytes → ℤ → Handled
  handle_registry_message freed db msg persona amp_index =
      if ltb (length msg) 8
      then out_of_range
      else answered (send_response (answer_of db (freed (c_str (drop 8 msg)))) persona amp_index)

-- How a message is sent: to the network, or around its manager on a route.
pub data Sent : Type 0 where
  by_client : Bytes → Bytes → Sent
  by_route : Bytes → Bytes → Bytes → Sent

-- `sendMessage`; what the SDK throws is caught.
unfoldable pub send_message : Message → Sent
send_message m =
    let text = m.message_content ++ m.generated in
    if m.is_nm_bypass
    then by_route text m.persona_of_recipient m.bypass_route
    else by_client text m.persona_of_recipient

module _ (lib : JsonLib) where
  -- The command of `get_artifact_registry_info`.
  unfoldable pub input_command : Bytes → Bytes → lib.Json
  input_command registry_address artifact_name = lib.object (
      (codes "type", lib.text (codes "send-message"))
      ∷ (
        codes "payload",
        lib.object (
            (codes "send-type", lib.text (codes "manual"))
            ∷ (codes "recipient", lib.text registry_address)
            ∷ (codes "message", lib.text artifact_name)
            ∷ (codes "test-id", lib.text [])
            ∷ (codes "ta1-bypass-route", lib.text [])
            ∷ []),
      )
      ∷ [])

  unfoldable pub send_all : List Message → List Sent
  send_all [] = []
  send_all (m ∷ messages) = send_message m ∷ send_all messages

  -- What `get_artifact_registry_info` sends before it waits.
  unfoldable pub send_request :
      ℤ → Bytes → (ℕ → ℕ) → (List Message → List Message) → Bytes → Bytes → Result (List Sent)
  send_request now pool begin_index sort registry_address artifact_name = do
    messages ←
        create_message lib now pool begin_index (codes "ta1-bypass-route")
          (codes "ta1-bypass-route") sort (input_command registry_address artifact_name)
    ok (send_all messages)
