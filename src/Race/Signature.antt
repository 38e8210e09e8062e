-- ===== src/Race/Signature.antt =====
-- registry-client/src/race/RaceUtil.cpp: `testIdFromClrMsg` and `getMessageSignature`, what is
-- recorded of a message. OpenSSL's SHA-1 is a record of its calls, all of which succeed.
pub mod Id
mod Tests
use race_slothy.Common.{
  ℕ, ◌/◌, ◌%◌, ◌≡◌, Option, none, some, List, [], ◌∷◌, ◌++◌, Bytes, ◌==◌, if◌then◌else◌, length,
  get_or, codes,
}

pub record Sha1 : Type 1 where
  pub Ctx : Type 0
  pub init : Ctx
  pub update : Ctx → Bytes → Ctx
  pub final : Ctx → Bytes
  pub length-final : (ctx : Ctx) → length (final ctx) ≡ 20

-- `message.find(" ")`, with what stands before it
unfoldable pub before_blank : Bytes → Option Bytes
before_blank [] = none
before_blank (c ∷ message) =
    if c == b' '
    then some []
    else elim (before_blank message) [ none ↦ none | some found ↦ some (c ∷ found) ]

unfoldable pub test_id_from_clr_msg : Bytes → Bytes
test_id_from_clr_msg message = elim (before_blank message) [ none ↦ [] | some found ↦ found ]

-- `std::hex`, `setfill('0')` and `setw(2)` for a byte
unfoldable pub hex_byte : ℕ → Bytes
hex_byte n =
    let digits = codes "0123456789abcdef" in
    get_or digits (n / 16) 0 ∷ get_or digits (n % 16) 0 ∷ []

unfoldable pub hex_bytes : Bytes → Bytes
hex_bytes [] = []
hex_bytes (n ∷ bytes) = hex_byte n ++ hex_bytes bytes

-- `sent_time` is the bytes of the time in memory.
unfoldable pub get_message_signature : Sha1 → Bytes → Bytes → Bytes → Bytes → Bytes
get_message_signature sha msg from_persona to_persona sent_time = hex_bytes (
    sha.final (
      sha.update (sha.update (sha.update (sha.update sha.init msg) from_persona) to_persona)
        sent_time))
