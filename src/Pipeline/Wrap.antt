-- ===== src/Pipeline/Wrap.antt =====
-- shard.cpp: `randomize_file`, `unrandomize_file`, `encrypt_file` and `decrypt_file`, which the
-- sharding server calls with names of files.
use race_slothy.Common.{ℕ, ◌+◌, ◌^◌, ◌<◌, ◌≡◌, refl, Option, some, arith, Bytes, length, Malloc}
use race_slothy.Header
use race_slothy.Header.{Sha256, Ending, randomize_header, unrandomize_header}
use race_slothy.Header.RoundTrip.{randomized, randomize_header-mask, unrandomize-randomized}
use race_slothy.Secretbox.{Nacl, Sink, crypto_secretbox_encrypt_file, crypto_secretbox_decrypt_file}
use race_slothy.Secretbox.RoundTrip.{Takes, encrypt_file-sealed, decrypt_file-sealed}
use race_slothy.Shards.Files.{Store, look_up, put}
use race_slothy.Shards.Files.Names.{look_up-put}
use race_slothy.Pipeline.{Ended, done, fault, after_box}

-- The disk after a call on the file of a name, whose result is ignored.
unfoldable pub ignored : Store → Bytes → Ending → Ended Store
ignored store name (Header.wrote bytes) = done (put store name bytes)
ignored store name Header.failed = done store
ignored store name Header.fault = fault

unfoldable pub randomize_file : Sha256 → Malloc → Store → Bytes → Option Bytes → Ended Store
randomize_file sha heap store infile rand =
    ignored store infile (randomize_header sha heap (look_up store infile) rand)

unfoldable pub unrandomize_file : Sha256 → Malloc → Store → Bytes → Ended Store
unrandomize_file sha heap store infile =
    ignored store infile (unrandomize_header sha heap (look_up store infile))

unfoldable pub encrypt_file :
    Nacl → Store → Bytes → Bytes → Option Sink → ℕ → Bytes → Bytes → Ended Store
encrypt_file nacl store infile outfile sink fuel key nonce =
    after_box (crypto_secretbox_encrypt_file nacl (look_up store infile) sink fuel key nonce)
      (λ bytes. done (put store outfile bytes))

unfoldable pub decrypt_file :
    Nacl → Store → Bytes → Bytes → Option Sink → ℕ → Bytes → Bytes → Ended Store
decrypt_file nacl store infile outfile sink fuel key nonce =
    after_box (crypto_secretbox_decrypt_file nacl (look_up store infile) sink fuel key nonce)
      (λ bytes. done (put store outfile bytes))

-- For a message that stands on the disk, with fewer than 2 ^ 31 - 64 bytes, a pre-image of 32 bytes,
-- fuel for an `fwrite` that takes a byte each time: `encrypt_file` into a file, `randomize_file` of
-- that file, `unrandomize_file` of it and `decrypt_file` into a third file all end, and the third
-- file has the message, whatever the names of the three files are.
pub decrypt_file-encrypt_file :
    (nacl : Nacl) (sha : Sha256) (heap : Malloc) (store : Store) (source coded back : Bytes)
    (message key nonce pre : Bytes) (sink sink' : Sink) (fuel : ℕ)
    → look_up store source ≡ some message
    → length message + 64 < 2 ^ 31
    → length pre ≡ 32
    → Takes sink
    → Takes sink'
    → 32 + length message < fuel
    → (encrypted masked unmasked decrypted : Store) × (encrypt_file nacl store source coded
          (some sink)
          fuel
          key
          nonce
        ≡ done encrypted)
      × (randomize_file sha heap encrypted coded (some pre) ≡ done masked)
      × (unrandomize_file sha heap masked coded ≡ done unmasked)
      × (decrypt_file nacl unmasked coded back (some sink') fuel key nonce ≡ done decrypted)
      × (look_up decrypted back ≡ some message)
unfolding encrypt_file decrypt_file randomize_file unrandomize_file ignored after_box randomized
decrypt_file-encrypt_file nacl sha heap store source coded back message key nonce pre sink sink'
      fuel there small pre_size takes takes' fueled =
    let (c, boxed, size, opened) = nacl.sealed key nonce message in
    let encrypted : Store = put store coded c in
    let masked : Store = put encrypted coded (randomized sha heap pre c) in
    let unmasked : Store = put masked coded c in
    (
      encrypted,
      masked,
      unmasked,
      put unmasked back message,
      rw (encrypt_file, there, encrypt_file-sealed nacl key nonce message sink fuel takes fueled)
          refl,
      rw (randomize_file, look_up-put store coded c)
          (rw
            (randomize_header-mask sha heap pre c pre_size (omega (arith, size))
              (omega (arith, size)))
            refl),
      rw
          (
            unrandomize_file,
            look_up-put encrypted coded (randomized sha heap pre c),
            unrandomize-randomized sha heap pre c pre_size (omega (arith, size)),
          )
          refl,
      rw
          (
            decrypt_file,
            look_up-put masked coded c,
            decrypt_file-sealed nacl key nonce message sink' fuel takes' (omega arith),
          )
          refl,
      look_up-put unmasked back message,
    )
