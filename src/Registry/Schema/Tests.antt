-- ===== src/Registry/Schema/Tests.antt =====
-- The theorems on the schema at a concrete database.
use race_slothy.Common.{◌≡◌, refl, sym, ap₂, Bool, true, false, none, some, Option, ℤ, pos}
use race_slothy.Registry.Schema.{TableName, version, registry, Sqlite, try_create_table}
use race_slothy.Registry.Schema.Create.{IsReady, try_create_table-IsReady}

-- Whether there is each table, and the row of VERSION.
record Base : Type 0 where
  with_version : Bool
  with_registry : Bool
  first_row : Option ℤ

abbrev has : Base → TableName → Bool
has b version = b.with_version
has b registry = b.with_registry

abbrev deleted : Base → Base
deleted b = record { with_version = false; with_registry = false; first_row = b.first_row }

abbrev base_of : Option ℤ → Bool → Bool → Base
base_of row x y = record { with_version = x; with_registry = y; first_row = row }

nothing_deleted : (b : Base) → ((t : TableName) → has b t ≡ false) → deleted b ≡ b
nothing_deleted b h = ap₂ (base_of b.first_row) (sym (h version)) (sym (h registry))

abbrev simple : Sqlite
simple = record {
  Db = Base;
  has_table = has;
  version_row = λ b. b.first_row;
  delete_tables = deleted;
  create_version =
      λ b. record { with_version = true; with_registry = b.with_registry; first_row = none };
  clear_version = λ b. record {
    with_version = b.with_version;
    with_registry = b.with_registry;
    first_row = none;
  };
  insert_version = λ n b. record {
    with_version = b.with_version;
    with_registry = b.with_registry;
    first_row = some (pos n);
  };
  create_registry =
      λ b. record { with_version = b.with_version; with_registry = true; first_row = b.first_row };
  delete_none = nothing_deleted;
  version_created = λ b h. refl;
  version_cleared = λ b h. (h, refl);
  version_inserted = λ b n h row. (h, refl);
  registry_created = λ b. (refl, refl, refl);
}

abbrev empty : Base
empty = record { with_version = false; with_registry = false; first_row = none }

no_tables : (t : TableName) → has empty t ≡ false
no_tables version = refl
no_tables registry = refl

try_create_table-IsReady_example : IsReady simple (pos 1) (try_create_table simple empty)
try_create_table-IsReady_example = try_create_table-IsReady simple empty no_tables

abbrev old : Base
old = record { with_version = true; with_registry = true; first_row = some (pos 7) }
