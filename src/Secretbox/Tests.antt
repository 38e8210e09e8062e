-- ===== src/Secretbox/Tests.antt =====
-- The theorems on encryption at a concrete box.
use race_slothy.Common.{
  ◌+◌, ◌<◌, ◌≤◌, ◌≡◌, refl, true, false, Option, none, some, [], ◌++◌, arith, Bytes, codes, ltb,
  if◌then◌else◌, length, replicate,
}
use race_slothy.Secretbox.{
  Nacl, wrote, Sink, crypto_secretbox_encrypt_file, crypto_secretbox_decrypt_file,
}
use race_slothy.Secretbox.RoundTrip.{decrypt-encrypt}

-- A box that hides nothing.
abbrev pub open_box : Bytes → Option Bytes
open_box c = if ltb (length c) 32 then none else some c

pub opens : (c : Bytes) → 32 ≤ length c → open_box c ≡ some c
opens c h = let long : ltb (length c) 32 ≡ false = ground arith in rw long refl

pub short_test : (c : Bytes) → length c < 32 → ltb (length c) 32 ≡ true
short_test c h = ground arith

abbrev pub glass : Nacl
glass = record {
  secretbox = λ key nonce m. some m;
  secretbox_open = λ key nonce c. open_box c;
  sealed = λ key nonce message. (
    replicate 32 0 ++ message,
    refl,
    omega arith,
    opens (replicate 32 0 ++ message) (omega arith),
  );
  open_short = λ key nonce c h. rw (short_test c h) refl;
}

abbrev pub steady : Sink
steady i = 5

decrypt-encrypt_example :
    (c : Bytes) × (crypto_secretbox_encrypt_file glass
        (some (codes "artifact"))
        (some steady)
        50
        []
        []
      ≡ wrote c)
    × (length c ≡ 32 + length (codes "artifact"))
    × (crypto_secretbox_decrypt_file glass (some c) (some steady) 50 [] []
        ≡ wrote (codes "artifact"))
decrypt-encrypt_example =
    decrypt-encrypt glass [] [] (codes "artifact") steady steady 50 (λ i. omega arith)
      (λ i. omega arith) (omega arith)
