-- ===== src/Race/Toy.antt =====
-- A JSON library: objects as lists of their members.
use race_slothy.Common.{
  ℕ, ◌%◌, ◌^◌, ◌<◌, ◌≡◌, refl, Bool, true, false, Option, none, some, List, [], ◌∷◌, arith, Bytes,
  bytes_eq, if◌then◌else◌, ℤ, pos,
}
use race_slothy.Race.{JsonLib}

mutual
  pub data Value : Type 0 where
    null : Value
    flag : Bool → Value
    num : ℕ → Value
    str : Bytes → Value
    arr : Items → Value
    obj : Fields → Value

  pub data Items : Type 0 where
    nil : Items
    cons : Value → Items → Items

  pub data Fields : Type 0 where
    end : Fields
    field : Bytes → Value → Fields → Fields

abbrev pub member_in : Fields → Bytes → Option Value
member_in end key = none
member_in (field k v fs) key = if bytes_eq k key then some v else member_in fs key

abbrev pub at : Value → Bytes → Option Value
at (obj fs) key = member_in fs key
at null key = none
at (flag b) key = none
at (num n) key = none
at (str s) key = none
at (arr xs) key = none

abbrev pub is_some : {A : Type 0} → Option A → Bool
is_some none = false
is_some (some a) = true

abbrev pub or_null : Option Value → Value
or_null none = null
or_null (some v) = v

abbrev pub is_object : Value → Bool
is_object (obj fs) = true
is_object null = false
is_object (flag b) = false
is_object (num n) = false
is_object (str s) = false
is_object (arr xs) = false

abbrev pub items_of : Items → List Value
items_of nil = []
items_of (cons v xs) = v ∷ items_of xs

abbrev pub values_of : Fields → List Value
values_of end = []
values_of (field k v fs) = v ∷ values_of fs

abbrev pub elements : Value → List Value
elements (arr xs) = items_of xs
elements (obj fs) = values_of fs
elements null = []
elements (flag b) = flag b ∷ []
elements (num n) = num n ∷ []
elements (str s) = str s ∷ []

abbrev pub members_of : Fields → List (Bytes × Value)
members_of end = []
members_of (field k v fs) = (k, v) ∷ members_of fs

abbrev pub entries : Value → Option (List (Bytes × Value))
entries (obj fs) = some (members_of fs)
entries null = some []
entries (arr nil) = some []
entries (arr (cons v xs)) = none
entries (flag b) = none
entries (num n) = none
entries (str s) = none

abbrev pub as_text : Value → Option Bytes
as_text (str s) = some s
as_text null = none
as_text (flag b) = none
as_text (num n) = none
as_text (arr xs) = none
as_text (obj fs) = none

abbrev pub as_bool : Value → Option Bool
as_bool (flag b) = some b
as_bool null = none
as_bool (num n) = none
as_bool (str s) = none
as_bool (arr xs) = none
as_bool (obj fs) = none

abbrev pub as_number : Value → Option ℕ
as_number (num n) = some n
as_number null = none
as_number (flag b) = none
as_number (str s) = none
as_number (arr xs) = none
as_number (obj fs) = none

abbrev pub wrapped : ℕ → Option ℕ → Option ℕ
wrapped w none = none
wrapped w (some n) = some (n % 2 ^ w)

abbrev pub signed : Option ℕ → Option ℤ
signed none = none
signed (some n) = some (pos n)

abbrev pub fields_of : List (Bytes × Value) → Fields
fields_of [] = end
fields_of ((k, v) ∷ fs) = field k v (fields_of fs)

pub wrapped_32 : (o : Option ℕ) (n : ℕ) → wrapped 32 o ≡ some n → n < 2 ^ 32
wrapped_32 none n e = absurd cc
wrapped_32 (some m) n e = ground arith

pub wrapped_64 : (o : Option ℕ) (n : ℕ) → wrapped 64 o ≡ some n → n < 2 ^ 64
wrapped_64 none n e = absurd cc
wrapped_64 (some m) n e = ground arith

abbrev pub toy_json : JsonLib
toy_json = record {
  Json = Value;
  at = at;
  contains = λ v key. is_some (at v key);
  is_object = is_object;
  member_of = λ v key. or_null (at v key);
  elements = elements;
  entries = entries;
  to_text = as_text;
  to_bool = as_bool;
  to_u32 = λ v. wrapped 32 (as_number v);
  to_u64 = λ v. wrapped 64 (as_number v);
  to_i32 = λ v. signed (as_number v);
  to_i64 = λ v. signed (as_number v);
  text = str;
  object = λ fs. obj (fields_of fs);
  to_text-text = λ b. refl;
  at-object = λ key k v fs. refl;
  to_u32-lt = λ v n e. wrapped_32 (as_number v) n e;
  to_u64-lt = λ v n e. wrapped_64 (as_number v) n e;
}
