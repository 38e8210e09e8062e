-- ===== src/Registry/Laws.antt =====
-- What the registry's database promises.
use race_slothy.Common.{◌≡◌, refl, ◌↔◌, none, some, Bytes, pos, negsuc}
use race_slothy.Registry.{
  Step, row, done, error, Sqlite, store_shard_entry, shard_exists, get_shard_data,
}

-- The two calls, on what their statement gives.
exists_iff :
    (found : Step)
    → ((elim found [ row json ↦ pos 1 | error ↦ pos 0 | done ↦ negsuc 0 ]) ≡ pos 1) ↔ (
        (json : Bytes) × ((elim found [ row j ↦ some j | done ↦ none | error ↦ none ]) ≡ some json))
exists_iff (row json) = (λ e. (json, refl), λ e. refl)
exists_iff done = (λ e. absurd cc, λ (j, e). absurd cc)
exists_iff error = (λ e. absurd cc, λ (j, e). absurd cc)

module _ (sql : Sqlite) where
  -- In a usable database, an entry with a new name is stored with result 0 and then found. A second
  -- entry with that name is refused with result 1 and leaves the database as it is, and the entries
  -- with other names are found as before.
  pub store-get :
      (db : sql.Db) (name json again other : Bytes)
      → sql.Usable db
      → sql.select db name ≡ done
      → ¬ (other ≡ name)
      → (db' : sql.Db) × (store_shard_entry sql db name json ≡ (0, db'))
        × (get_shard_data sql db' name ≡ some json)
        × (store_shard_entry sql db' name again ≡ (1, db'))
        × (get_shard_data sql db' other ≡ get_shard_data sql db other)
  unfolding store_shard_entry get_shard_data
  store-get db name json again other usable absent different =
      let (stored, found) = sql.insert_new db name json usable absent in
      let usable' = sql.insert_usable db name json usable in
      let db' = (sql.insert db name json).1 in
      let taken = sql.insert_taken db' name again json usable' found in
      (
        db',
        rw (store_shard_entry, stored) refl,
        rw (get_shard_data, found) refl,
        rw (store_shard_entry, taken) (rw taken refl),
        rw (get_shard_data, sql.insert_other db name json other usable different) refl,
      )

  -- In any database, `shardExists` is 1 exactly when `getShardData` does not throw.
  pub shard_exists-get :
      (db : sql.Db) (name : Bytes)
      → (shard_exists sql db name ≡ pos 1)
        ↔ ((json : Bytes) × (get_shard_data sql db name ≡ some json))
  unfolding shard_exists get_shard_data
  shard_exists-get db name = exists_iff (sql.select db name)
