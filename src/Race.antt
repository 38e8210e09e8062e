-- ===== src/Race.antt =====
-- The messages of the RACE network: registry-client/src/race and, as copies of it with small
-- differences, artifact-manager-plugin/src/interfaces/race.
-- Here: what both use of nlohmann's JSON values, and exceptions. `none` is an exception of the
-- library, whose type is not one of the standard library's.
pub mod Message
pub mod Answer
pub mod Await
pub mod App
pub mod Lookup
pub mod Send
pub mod Signature
pub mod Toy
use race_slothy.Common.{
  ℕ, ◌^◌, ◌<◌, ◌≡◌, Bool, Option, none, some, List, [], ◌∷◌, Bytes, bytes_eq, if◌then◌else◌, ℤ,
}

-- `is_object`, `at` and `operator[]` with a key, `contains`, the conversions to the types of C++,
-- the elements and the entries that a loop over a value visits (`none`: the value is no object, and
-- its elements have no keys), and the values of the initializer lists `{ { key, value }, ... }` and
-- of texts. A number is converted to the range of the type.
pub record JsonLib : Type 1 where
  pub Json : Type 0
  pub at : Json → Bytes → Option Json
  pub contains : Json → Bytes → Bool
  pub is_object : Json → Bool
  pub member_of : Json → Bytes → Json
  pub elements : Json → List Json
  pub entries : Json → Option (List (Bytes × Json))
  pub to_text : Json → Option Bytes
  pub to_bool : Json → Option Bool
  pub to_u32 : Json → Option ℕ
  pub to_u64 : Json → Option ℕ
  pub to_i32 : Json → Option ℤ
  pub to_i64 : Json → Option ℤ
  pub text : Bytes → Json
  pub object : List (Bytes × Json) → Json
  pub to_text-text : (b : Bytes) → to_text (text b) ≡ some b
  pub at-object :
      (key k : Bytes) (v : Json) (fields : List (Bytes × Json))
      → at (object ((k, v) ∷ fields)) key
        ≡ (if bytes_eq k key then some v else at (object fields) key)
  pub to_u32-lt : (v : Json) (n : ℕ) → to_u32 v ≡ some n → n < 2 ^ 32
  pub to_u64-lt : (v : Json) (n : ℕ) → to_u64 v ≡ some n → n < 2 ^ 64

-- The exceptions that the code tells apart.
pub data Exception : Type 0 where
  json_exception : Exception
  invalid_argument : Exception

pub data Result (A : Type 0) : Type 0 where
  ok : A → Result A
  threw : Exception → Result A

infixl 5 ◌>>=◌
abbrev pub ◌>>=◌ : {A B : Type 0} → Result A → (A → Result B) → Result B
ok a >>= f = f a
threw e >>= f = threw e

-- A call of the JSON library.
abbrev pub or_json : {A : Type 0} → Option A → Result A
or_json none = threw json_exception
or_json (some a) = ok a

-- `catch (std::invalid_argument &)` that throws an `invalid_argument` again changes nothing but
-- the text; `catch (nlohmann::json::exception &)` makes an `invalid_argument` of it.
unfoldable pub as_invalid : {A : Type 0} → Result A → Result A
as_invalid (ok a) = ok a
as_invalid (threw e) = threw invalid_argument

module _ (lib : JsonLib) where
  -- `at` with a key, converted to a text
  abbrev pub text_at : lib.Json → Bytes → Result Bytes
  text_at payload key = do v ← or_json (lib.at payload key); or_json (lib.to_text v)

  -- `value` with a key and a default
  abbrev pub value_or : {A : Type 0} → (lib.Json → Option A) → lib.Json → Bytes → A → Result A
  value_or convert v key otherwise =
      if lib.is_object v
      then elim (lib.at v key) [ none ↦ ok otherwise | some w ↦ or_json (convert w) ]
      else threw json_exception
