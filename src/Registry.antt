-- ===== src/Registry.antt =====
-- registry-client/src: the registry of shards.
-- Here: db/registryDatabase.cpp, the calls that store and find an entry. The child `Http` is about
-- http/httpServer.cpp. SQLite is a record of the statements that the sources prepare, with what SQL
-- says of them for a table whose key is `shard_name`; a name is a C string.
pub mod Laws
pub mod Http
pub mod Threads
pub mod Request
pub mod Schema
pub mod Toy
pub mod Pid
mod Tests
use race_slothy.Common.{ℕ, ◌≡◌, Option, none, some, Bytes, ℤ, pos, negsuc, Bool}

-- What `sqlite3_step` gives: SQLITE_ROW with the row's `shard_json`, SQLITE_DONE, or anything else.
pub data Step : Type 0 where
  row : Bytes → Step
  done : Step
  error : Step

-- The statements "INSERT INTO REGISTRY (shard_name,shard_json) VALUES (?,?);" and "SELECT * FROM
-- REGISTRY WHERE shard_name=?;", stepped once. `Usable` is a database with that table, in which
-- reading and writing does not fail.
pub record Sqlite : Type 1 where
  pub Db : Type 0
  pub Usable : Db → Type 0
  pub insert : Db → Bytes → Bytes → Step × Db
  pub select : Db → Bytes → Step
  pub select_ok : (db : Db) (name : Bytes) → Usable db → ¬ (select db name ≡ error)
  pub insert_usable : (db : Db) (name json : Bytes) → Usable db → Usable (insert db name json).1
  pub insert_new :
      (db : Db) (name json : Bytes)
      → Usable db
      → select db name ≡ done
      → ((insert db name json).0 ≡ done) × (select (insert db name json).1 name ≡ row json)
  pub insert_taken :
      (db : Db) (name json old : Bytes)
      → Usable db
      → select db name ≡ row old
      → insert db name json ≡ (error, db)
  pub insert_other :
      (db : Db) (name json other : Bytes)
      → Usable db
      → ¬ (other ≡ name)
      → select (insert db name json).1 other ≡ select db other

module _ (sql : Sqlite) where
  unfoldable pub store_shard_entry : sql.Db → Bytes → Bytes → ℕ × sql.Db
  store_shard_entry db shard_name shard_json =
      let (result, db') = sql.insert db shard_name shard_json in
      elim result [ done ↦ (0, db') | row json ↦ (1, db') | error ↦ (1, db') ]

  unfoldable pub shard_exists : sql.Db → Bytes → ℤ
  shard_exists db shard_name = elim (sql.select db shard_name) [
    | row json ↦ pos 1
    | error ↦ pos 0
    | done ↦ negsuc 0
  ]

  -- `none` is the exception.
  unfoldable pub get_shard_data : sql.Db → Bytes → Option Bytes
  get_shard_data db shard_name = elim (sql.select db shard_name) [
    | row json ↦ some json
    | done ↦ none
    | error ↦ none
  ]
