-- ===== src/Base64.antt =====
-- artifact-manager-plugin/src/util/base64.cpp: `base64_encode` and `base64_decode`.
-- The bytes held back in `char_array_3` or `char_array_4` are the list `held`, in order; what the
-- loop appends to `ret` is `ret ++ …`. Sums are stored in a BYTE, hence the `u8`. The lengths are
-- those that `int in_len` and `unsigned int bufLen` hold.
pub mod Masks
pub mod RoundTrip
pub mod Shape
mod Tests
use race_slothy.Common.{
  ℕ, zero, suc, ◌+◌, ◌*◌, ◌/◌, ◌%◌, bit_and, Bool, true, false, not, ◌&&◌, ◌||◌, List, [], ◌∷◌,
  ◌++◌, Bytes, codes, u8, ltb, leb, ◌==◌, if◌then◌else◌, get_or, take, length, ◌-◌, ◌^◌,
}

-- `base64_chars`
abbrev pub base64_chars : Bytes
base64_chars = codes "ABCDEFGHIJKLMNOPQRSTUVWXYZabcdefghijklmnopqrstuvwxyz0123456789+/"

-- `base64_chars[i]`, for an index below 64
unfoldable pub char_at : ℕ → ℕ
char_at i = get_or base64_chars i 0

-- the loop of `std::string::find`, which gives `npos` where no character is equal
find_from : Bytes → ℕ → ℕ → ℕ
find_from [] i c = 2 ^ 64 - 1
find_from (d ∷ ds) i c = if d == c then i else find_from ds (i + 1) c

-- `base64_chars.find(c)`, stored in a BYTE
unfoldable pub find_char : ℕ → ℕ
unfolding find_from
find_char c = u8 (find_from base64_chars 0 c)

-- `isalnum` in the C locale
unfoldable pub isalnum : ℕ → Bool
isalnum c = (leb b'0' c && leb c b'9') || (leb b'A' c && leb c b'Z') || (leb b'a' c && leb c b'z')

unfoldable pub is_base64 : ℕ → Bool
unfolding isalnum
is_base64 c = isalnum c || c == b'+' || c == b'/'

-- the four indices of three bytes: `char_array_4` from `char_array_3`
unfoldable pub sextets : ℕ → ℕ → ℕ → Bytes
sextets a b c =
    u8 (bit_and a 0xfc / 2 ^ 2)
    ∷ u8 (bit_and a 0x03 * 2 ^ 4 + bit_and b 0xf0 / 2 ^ 4)
    ∷ u8 (bit_and b 0x0f * 2 ^ 2 + bit_and c 0xc0 / 2 ^ 6)
    ∷ bit_and c 0x3f
    ∷ []

-- the three bytes of four indices: `char_array_3` from `char_array_4`
unfoldable pub octets : ℕ → ℕ → ℕ → ℕ → Bytes
octets p q r s =
    u8 (p * 2 ^ 2 + bit_and q 0x30 / 2 ^ 4)
    ∷ u8 (bit_and q 0xf * 2 ^ 4 + bit_and r 0x3c / 2 ^ 2)
    ∷ u8 (bit_and r 0x3 * 2 ^ 6 + s)
    ∷ []

-- the bytes of an unfinished group
pub data Held : Type 0 where
  held0 : Held
  held1 : ℕ → Held
  held2 : ℕ → ℕ → Held

-- `for … ret += base64_chars[char_array_4[i]]`
unfoldable pub spell : Bytes → Bytes
unfolding char_at
spell [] = []
spell (i ∷ is) = char_at i ∷ spell is

-- after the loop: the zero-filled group's first `i + 1` characters, and `3 - i` signs `=`
unfoldable pub encode_tail : Held → Bytes
unfolding spell
encode_tail held0 = []
encode_tail (held1 a) = spell (take 2 (sextets a 0 0)) ++ b'=' ∷ b'=' ∷ []
encode_tail (held2 a b) = spell (take 3 (sextets a b 0)) ++ b'=' ∷ []

-- `while (bufLen--)`
unfoldable pub encode_loop : Bytes → Held → Bytes → Bytes
unfolding encode_tail spell
encode_loop [] held ret = ret ++ encode_tail held
encode_loop (x ∷ buf) held0 ret = encode_loop buf (held1 x) ret
encode_loop (x ∷ buf) (held1 a) ret = encode_loop buf (held2 a x) ret
encode_loop (x ∷ buf) (held2 a b) ret = encode_loop buf held0 (ret ++ spell (sextets a b x))

unfoldable pub base64_encode : Bytes → Bytes
unfolding encode_loop
base64_encode buf = encode_loop buf held0 []

-- the characters of an unfinished group of four
pub data Quad : Type 0 where
  quad0 : Quad
  quad1 : ℕ → Quad
  quad2 : ℕ → ℕ → Quad
  quad3 : ℕ → ℕ → ℕ → Quad

-- the group after one more character
unfoldable pub push : Quad → ℕ → Quad
push quad0 c = quad1 c
push (quad1 p) c = quad2 p c
push (quad2 p q) c = quad3 p q c
push (quad3 p q r) c = quad0

-- the bytes that a fourth character completes
unfoldable pub complete : Quad → ℕ → Bytes
complete quad0 c = []
complete (quad1 p) c = []
complete (quad2 p q) c = []
complete (quad3 p q r) c = octets (find_char p) (find_char q) (find_char r) (find_char c)

-- after the loop: the zero-filled group's first `i - 1` bytes (`find` is called on the zeros too)
unfoldable pub decode_tail : Quad → Bytes
decode_tail quad0 = []
decode_tail (quad1 p) = []
decode_tail (quad2 p q) = take 1 (octets (find_char p) (find_char q) (find_char 0) (find_char 0))
decode_tail (quad3 p q r) = take 2 (octets (find_char p) (find_char q) (find_char r) (find_char 0))

-- `while (in_len-- && …)`
unfoldable pub decode_loop : Bytes → Quad → Bytes → Bytes
unfolding is_base64 push complete decode_tail
decode_loop [] quad ret = ret ++ decode_tail quad
decode_loop (c ∷ text) quad ret =
    let rest = decode_loop text (push quad c) (ret ++ complete quad c) in
    if not (c == b'=') && is_base64 c then rest else ret ++ decode_tail quad

unfoldable pub base64_decode : Bytes → Bytes
unfolding decode_loop
base64_decode text = decode_loop text quad0 []
