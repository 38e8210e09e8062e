-- ===== src/Race/Signature/Id.antt =====
-- RaceUtil.cpp: the test id of the messages that `createMessage` makes, and the form of a signature.
use race_slothy.Common.{
  ℕ, ◌*◌, ◌≡◌, refl, false, some, [], ◌∷◌, ◌++◌, All, arith, Bytes, ◌==◌, length, length-append,
  codes, ℤ, not,
}
use race_slothy.Race.{JsonLib, ok, text_at}
use race_slothy.Race.Message.{Message, test_id_of, is_empty, parse_send_message}
use race_slothy.Race.Signature.{
  Sha1, before_blank, test_id_from_clr_msg, hex_byte, hex_bytes, get_message_signature,
}

before_blank_of :
    (test_id rest : Bytes)
    → All (λ (c : ℕ). (c == b' ') ≡ false) test_id
    → before_blank (test_id ++ (codes " " ++ rest)) ≡ some test_id
unfolding before_blank
before_blank_of [] rest h = refl
before_blank_of (c ∷ test_id) rest (here, h) =
    rw (before_blank, here) (rw (before_blank_of test_id rest h) refl)

-- The test id of a text that begins with one without blanks, and a blank, is read back.
pub test_id_read_back :
    (test_id rest : Bytes)
    → All (λ (c : ℕ). (c == b' ') ≡ false) test_id
    → test_id_from_clr_msg (test_id ++ (codes " " ++ rest)) ≡ test_id
unfolding test_id_from_clr_msg
test_id_read_back test_id rest h = rw (test_id_from_clr_msg, before_blank_of test_id rest h) refl

length-hex_bytes : (bytes : Bytes) → length (hex_bytes bytes) ≡ 2 * length bytes
unfolding hex_bytes hex_byte
length-hex_bytes [] = refl
length-hex_bytes (n ∷ bytes) =
    omega (arith, length-append (hex_byte n) (hex_bytes bytes), length-hex_bytes bytes)

-- A signature has forty characters.
pub length-get_message_signature :
    (sha : Sha1) (msg from_persona to_persona sent_time : Bytes)
    → length (get_message_signature sha msg from_persona to_persona sent_time) ≡ 40
unfolding get_message_signature
length-get_message_signature sha msg from_persona to_persona sent_time =
    omega (arith, length-hex_bytes (sha.final _), sha.length-final _)

given_id_kept :
    (given rest : Bytes)
    → All (λ (c : ℕ). (c == b' ') ≡ false) given
    → test_id_from_clr_msg (test_id_of given ++ (codes " " ++ rest)) ≡ test_id_of given
unfolding test_id_of is_empty
given_id_kept [] rest h = test_id_read_back (codes "default") rest (ground arith)
given_id_kept (c ∷ given) rest h = test_id_read_back (c ∷ given) rest h

-- The message of a manual command with all of its members and a test id without blanks: the id that
-- is recorded of it is the one that was given, or the one that stands for none.
pub test_id_from_clr_msg-parse_send_message :
    (lib : JsonLib) (now : ℤ) (pool : Bytes) (begin_index : ℕ → ℕ) (route_key : Bytes)
    (payload : lib.Json) (recipient message given route : Bytes)
    → text_at lib payload (codes "recipient") ≡ ok recipient
    → text_at lib payload (codes "message") ≡ ok message
    → text_at lib payload (codes "test-id") ≡ ok given
    → text_at lib payload route_key ≡ ok route
    → All (λ (c : ℕ). (c == b' ') ≡ false) given
    → (m : Message) × (parse_send_message lib now pool begin_index route_key payload ≡ ok (m ∷ []))
      × (test_id_from_clr_msg m.message_content ≡ test_id_of given)
unfolding parse_send_message
test_id_from_clr_msg-parse_send_message lib now pool begin_index route_key payload recipient message
      given route has_recipient has_message has_id has_route h =
    (
      record {
        message_content = test_id_of given ++ (codes " " ++ message);
        generated = [];
        persona_of_recipient = recipient;
        send_time = now;
        is_nm_bypass = not (is_empty route);
        bypass_route = route;
      },
      rw (parse_send_message, has_recipient, has_message, has_id, has_route) refl,
      given_id_kept given message h,
    )
