-- ===== src/Base64/Tests.antt =====
-- Runs of base64.cpp, and its theorems at concrete inputs.
use race_slothy.Common.{◌≡◌, refl, arith, codes}
use race_slothy.Base64.{base64_encode, base64_decode, sextets, octets, find_char}
use race_slothy.Base64.RoundTrip.{base64_decode-encode}

slot : base64_encode (codes "Slothy!") ≡ codes "U2xvdGh5IQ=="
unfolding base64_encode sextets
slot = refl

unslot : base64_decode (codes "U2xvdGh5IQ==") ≡ codes "Slothy!"
unfolding base64_decode octets find_char
unslot = refl

base64_decode-encode_example : base64_decode (base64_encode (codes "key")) ≡ codes "key"
base64_decode-encode_example = base64_decode-encode (codes "key") (omega arith) (omega arith)
