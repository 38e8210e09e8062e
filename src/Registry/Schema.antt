-- ===== src/Registry/Schema.antt =====
-- registry-client/src/db/registryDatabase.cpp: `tryCreateTable`, with the classes of
-- registry-client/src/db/schema. A statement that fails leaves the database as it is and its result
-- is not looked at, so a statement is a function on databases.
pub mod Create
mod Tests
use race_slothy.Common.{
  ℕ, zero, suc, ◌≡◌, Bool, true, false, ◌||◌, not, Option, none, some, ◌==◌, if◌then◌else◌, ℤ, pos,
  negsuc,
}

-- The names of tables that the sources use: VERSION and REGISTRY.
pub data TableName : Type 0 where
  version : TableName
  registry : TableName

-- SQLite on the statements of the schema: whether `sqlite_master` has a table; the first row of
-- VERSION as `atoi` reads it; and what the others do to a database. The laws are those of SQL
-- for an empty database and for the tables that there are, as long as the disk does not fail.
pub record Sqlite : Type 1 where
  pub Db : Type 0
  pub has_table : Db → TableName → Bool
  pub version_row : Db → Option ℤ
  pub delete_tables : Db → Db
  pub create_version : Db → Db
  pub clear_version : Db → Db
  pub insert_version : ℕ → Db → Db
  pub create_registry : Db → Db
  pub delete_none : (db : Db) → ((t : TableName) → has_table db t ≡ false) → delete_tables db ≡ db
  pub version_created :
      (db : Db) → has_table db version ≡ false → has_table (create_version db) version ≡ true
  pub version_cleared :
      (db : Db)
      → has_table db version ≡ true
      → (has_table (clear_version db) version ≡ true) × (version_row (clear_version db) ≡ none)
  pub version_inserted :
      (db : Db) (n : ℕ)
      → has_table db version ≡ true
      → version_row db ≡ none
      → (has_table (insert_version n db) version ≡ true)
        × (version_row (insert_version n db) ≡ some (pos n))
  pub registry_created :
      (db : Db)
      → (has_table (create_registry db) registry ≡ true)
        × (has_table (create_registry db) version ≡ has_table db version)
        × (version_row (create_registry db) ≡ version_row db)

module _ (sql : Sqlite) where
  -- -1 if there is no row, or no table.
  unfoldable pub get_schema_version : sql.Db → ℤ
  get_schema_version db = elim (sql.version_row db) [ none ↦ negsuc 0 | some v ↦ v ]

  -- `DbSchemaV1::getVersion`
  abbrev pub get_version : ℕ
  get_version = 1

  unfoldable pub set_db_version : sql.Db → ℕ → sql.Db
  set_db_version db n = sql.insert_version n (sql.clear_version db)

  -- `DbSchemaV1::create`
  unfoldable pub create : sql.Db → sql.Db
  create db = sql.create_registry (set_db_version db 1)

  -- `DbSchemaV1::validate`
  unfoldable pub validate : sql.Db → Bool
  validate db = sql.has_table db registry

  -- `getSchemaVersion(db) == -1`
  unfoldable pub has_no_version : ℤ → Bool
  has_no_version (pos n) = false
  has_no_version (negsuc n) = n == 0

  unfoldable pub try_create_table : sql.Db → sql.Db
  try_create_table db =
      let db' =
        if not (sql.has_table db version) || has_no_version (get_schema_version db)
        then create (sql.create_version (sql.delete_tables db))
        else db in
      if validate db' then db' else create db'
