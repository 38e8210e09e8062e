-- ===== src/Race/Await.antt =====
-- artifact-manager-plugin/src/interfaces/race/RaceInterface.cpp: `awaitMessageWithHeader` and
-- `handleReceivedMessage`, which put the messages of the registry into a queue and wait for one in
-- it. slothy-amp.cpp has the same code in `get_artifact_registry_info` and `receiveAmpMessage`.
pub mod Scan
pub mod Passes
pub mod Ends
pub mod Wakeup
pub mod Waiting
pub mod Unanswered
mod Tests
use race_slothy.Common.{
  ℕ, zero, suc, ◌+◌, ◌-◌, Bool, true, false, ◌&&◌, Option, none, some, List, [], ◌∷◌, ◌++◌, Bytes,
  codes, ◌==◌, if◌then◌else◌, bytes_eq, get_elem?, length,
}
use race_slothy.Registry.Http.{c_str}
use race_slothy.Race.{JsonLib}

unfoldable pub erase_at {ℓ} : {A : Type ℓ} → ℕ → List A → List A
erase_at i [] = []
erase_at zero (x ∷ xs) = xs
erase_at (suc i) (x ∷ xs) = x ∷ erase_at i xs

-- What the loop finds an entry of the queue to be: no JSON; without one of the members; with a name
-- that is not a text, which throws; or complete.
pub data Entry (Json : Type 0) : Type 0 where
  invalid : Entry Json
  incomplete : Entry Json
  unnamed : Entry Json
  complete : Bytes → Json → Entry Json

-- How the loop over the queue ends: with the queue and the response, by an exception, or outside of
-- defined behaviour; `looping` is for too little fuel.
pub data Scanned (Json : Type 0) : Type 0 where
  scanned : List Bytes → Option Json → Scanned Json
  threw : Scanned Json
  fault : Scanned Json
  looping : Scanned Json

-- `accept` and `parse` of a text; `none` if it is not accepted.
module _ (lib : JsonLib) (parse : Bytes → Option lib.Json) where
  unfoldable pub has_members : lib.Json → Bool
  has_members v =
      lib.contains v (codes "name")
      && (lib.contains v (codes "so_sharded")
          && (lib.contains v (codes "so")
              && (lib.contains v (codes "json_sharded") && lib.contains v (codes "json"))))

  unfoldable pub entry_name : lib.Json → Option Bytes
  entry_name v = elim (lib.at v (codes "name")) [ none ↦ none | some n ↦ lib.to_text n ]

  unfoldable pub entry_of : Bytes → Entry lib.Json
  entry_of el = elim (parse (c_str el)) [
    | none ↦ invalid
    | some v ↦
        if has_members v
        then elim (entry_name v) [ none ↦ unnamed | some name ↦ complete name v ]
        else incomplete
  ]

  -- `for (int i = 0; i < queue.size(); i++)` from `i` on. For an incomplete entry `i` is lowered
  -- before the entry with number `i` is erased, and raised again at the end of the round.
  unfoldable pub scan_queue : ℕ → ℕ → Bytes → List Bytes → Option lib.Json → Scanned lib.Json
  scan_queue zero i header queue response = looping
  scan_queue (suc fuel) i header queue response = elim (get_elem? queue i) [
    | none ↦ scanned queue response
    | some el ↦ elim (entry_of el) [
      | invalid ↦ scan_queue fuel (i + 1) header queue response
      | incomplete ↦ elim i [
        | zero ↦ fault
        | suc j ↦ scan_queue fuel (suc j) header (erase_at j queue) response
      ]
      | unnamed ↦ threw
      | complete name v ↦ elim (bytes_eq name header) [
        | false ↦ scan_queue fuel (i + 1) header queue response
        | true ↦ scan_queue fuel (i + 1) header (erase_at i queue) (some v)
      ]
    ]
  ]

  -- One pass over the queue, with enough fuel.
  unfoldable pub pass : Bytes → List Bytes → Scanned lib.Json
  pass header queue = scan_queue (suc (length queue)) 0 header queue none
