-- ===== src/Registry/Schema/Create.antt =====
-- What the database of the registry is after its start.
use race_slothy.Common.{◌≡◌, refl, ◌∙◌, true, false, some, ℤ, pos}
use race_slothy.Registry.Schema.{
  TableName, version, registry, Sqlite, get_schema_version, set_db_version, create, validate,
  has_no_version, try_create_table,
}

module _ (sql : Sqlite) where
  -- A database is ready: it has both tables, and its version is `v`.
  abbrev pub IsReady : ℤ → sql.Db → Type 0
  IsReady v db =
      (sql.has_table db version ≡ true)
      × (sql.has_table db registry ≡ true)
      × (sql.version_row db ≡ some v)

  create-IsReady : (db : sql.Db) → sql.has_table db version ≡ true → IsReady (pos 1) (create sql db)
  unfolding create set_db_version
  create-IsReady db h =
      let (cleared, empty) = sql.version_cleared db h in
      let (kept, inserted) = sql.version_inserted (sql.clear_version db) 1 cleared empty in
      let (made, same, row) = sql.registry_created (sql.insert_version 1 (sql.clear_version db)) in
      (same ∙ kept, made, row ∙ inserted)

  -- A database without tables is ready with version 1 after the start.
  pub try_create_table-IsReady :
      (db : sql.Db)
      → ((t : TableName) → sql.has_table db t ≡ false)
      → IsReady (pos 1) (try_create_table sql db)
  unfolding try_create_table validate
  try_create_table-IsReady db h =
      let made = create-IsReady (sql.create_version db) (sql.version_created db (h version)) in
      let valid = made.1 in rw (try_create_table, h version, sql.delete_none db h, valid) made

  -- A database that has both tables and a version other than -1 is as before after the start,
  -- whatever version it is.
  pub try_create_table_ready :
      (db : sql.Db) (v : ℤ)
      → IsReady v db
      → has_no_version sql v ≡ false
      → try_create_table sql db ≡ db
  unfolding try_create_table validate get_schema_version
  try_create_table_ready db v (has_version, has_registry, row) h =
      rw (try_create_table, has_version, get_schema_version, row, h, validate, has_registry) refl
