-- ===== src/Registry/Toy.antt =====
-- A database that is a list of its rows.
use race_slothy.Common.{
  Bool, ◌≡◌, refl, sym, ap, true, false, List, [], ◌∷◌, Bytes, bytes_eq, bytes_eq_refl,
  bytes_eq_sound, Bool-cases, inl, inr, if◌then◌else◌,
}
use race_slothy.Registry.{Step, row, done, error, Sqlite}

-- A table as a list of its rows.
abbrev pub Table : Type 0
Table = List (Bytes × Bytes)

abbrev pub find_row : Table → Bytes → Step
find_row [] name = done
find_row ((k, v) ∷ t) name = if bytes_eq k name then row v else find_row t name

abbrev pub add_unless : Step → Table → Bytes → Bytes → Step × Table
add_unless done t name json = (done, (name, json) ∷ t)
add_unless (row old) t name json = (error, t)
add_unless error t name json = (error, t)

abbrev pub add_row : Table → Bytes → Bytes → Step × Table
add_row t name json = add_unless (find_row t name) t name json

pub chosen_ok :
    (b : Bool) (v : Bytes) (s : Step) → ¬ (s ≡ error) → ¬ ((if b then row v else s) ≡ error)
chosen_ok true v s h e = absurd cc
chosen_ok false v s h e = h e

pub find_row_ok : (t : Table) (name : Bytes) → ¬ (find_row t name ≡ error)
find_row_ok [] name e = absurd cc
find_row_ok ((k, v) ∷ t) name e =
    chosen_ok (bytes_eq k name) v (find_row t name) (find_row_ok t name) e

pub add_new :
    (t : Table) (name json : Bytes)
    → find_row t name ≡ done
    → ((add_row t name json).0 ≡ done) × (find_row (add_row t name json).1 name ≡ row json)
add_new t name json h =
    let added : add_row t name json ≡ (done, (name, json) ∷ t) = rw (add_row, h) refl in
    (ap (λ (r : Step × Table). r.0) added, rw (added, find_row, bytes_eq_refl name) refl)

pub add_taken :
    (t : Table) (name json old : Bytes)
    → find_row t name ≡ row old
    → add_row t name json ≡ (error, t)
add_taken t name json old h = rw (add_row, h) refl

pub find_row_other :
    (found : Step) (t : Table) (name json other : Bytes)
    → bytes_eq name other ≡ false
    → find_row (add_unless found t name json).1 other ≡ find_row t other
find_row_other done t name json other h = rw (find_row, h) refl
find_row_other (row old) t name json other h = refl
find_row_other error t name json other h = refl

pub add_other :
    (t : Table) (name json other : Bytes)
    → ¬ (other ≡ name)
    → find_row (add_row t name json).1 other ≡ find_row t other
add_other t name json other h = elim (Bool-cases (bytes_eq name other)) [
  | inl same ↦ absurd (h (sym (bytes_eq_sound name other same)))
  | inr differ ↦ find_row_other (find_row t name) t name json other differ
]

abbrev pub memory : Sqlite
memory = record {
  Db = Table;
  Usable = λ t. Unit;
  insert = add_row;
  select = find_row;
  select_ok = λ t name u. find_row_ok t name;
  insert_usable = λ t name json u. tt;
  insert_new = λ t name json u. add_new t name json;
  insert_taken = λ t name json old u. add_taken t name json old;
  insert_other = λ t name json other u. add_other t name json other;
}
