-- ===== src/Secretbox/RoundTrip.antt =====
-- crypto_secretbox.cpp: encryption and decryption together, and the loop that writes.
use race_slothy.Common.{
  ℕ, zero, suc, ◌+◌, ◌-◌, ◌≤◌, ◌<◌, ◌≡◌, refl, min, none, some, true, Option, [], ◌++◌, arith,
  Bytes, ltb, Bool-cases, inl, inr, length, take, drop, append_assoc, length-drop, take-append-drop,
  take_all,
}
use race_slothy.Secretbox.{
  Nacl, wrote, exited, running, Sink, write_loop, write_all, crypto_secretbox_encrypt_file,
  crypto_secretbox_decrypt_file, crypto_secretbox_decrypt_fd,
}

-- Every call of `fwrite` takes a byte at least.
abbrev pub Takes : Sink → Type 0
Takes sink = (i : ℕ) → 1 ≤ sink i

write_loop-ends :
    (sink : Sink) (fuel i : ℕ) (rest file : Bytes)
    → Takes sink
    → length rest < fuel
    → write_loop sink fuel i rest file ≡ some (file ++ rest)
unfolding write_loop
write_loop-ends sink zero i rest file takes h = absurd (omega arith)
write_loop-ends sink (suc fuel) i rest file takes h =
    let n = min (sink i) (length rest) in
    elim (Bool-cases (ltb n (length rest))) [
      | inl more ↦
          let some_byte = takes i in
          let progress : length (drop n rest) < fuel = ground (arith, length-drop n rest) in
          rw
            (
              more,
              write_loop-ends sink fuel (i + 1) (drop n rest) (file ++ take n rest) takes progress,
              append_assoc file (take n rest) (drop n rest),
              take-append-drop n rest,
            )
            refl
      | inr all ↦ let whole : length rest ≤ n = ground arith in rw (all, take_all n rest whole) refl
    ]

write_loop-full :
    (fuel i : ℕ) (rest file : Bytes) → 0 < length rest → write_loop (λ i. 0) fuel i rest file ≡ none
unfolding write_loop
write_loop-full zero i rest file h = refl
write_loop-full (suc fuel) i rest file h =
    let nothing : min 0 (length rest) ≡ 0 = omega arith in
    let more : ltb 0 (length rest) ≡ true = ground arith in
    rw (nothing, more) (write_loop-full fuel (i + 1) rest (file ++ []) h)

write_all-ends :
    (sink : Sink) (fuel : ℕ) (bytes : Bytes)
    → Takes sink
    → length bytes < fuel
    → write_all (some sink) fuel bytes ≡ wrote bytes
unfolding write_all
write_all-ends sink fuel bytes takes h =
    rw (write_all, write_loop-ends sink fuel 0 bytes [] takes h) refl

module _ (nacl : Nacl) (key nonce : Bytes) where
  pub encrypt_file-sealed :
      (message : Bytes) (sink : Sink) (fuel : ℕ)
      → Takes sink
      → 32 + length message < fuel
      → crypto_secretbox_encrypt_file nacl (some message) (some sink) fuel key nonce
        ≡ wrote (nacl.sealed key nonce message).0
  unfolding crypto_secretbox_encrypt_file
  encrypt_file-sealed message sink fuel takes h =
      let (c, boxed, size, opened) = nacl.sealed key nonce message in
      rw (crypto_secretbox_encrypt_file, boxed, write_all-ends sink fuel c takes (omega arith)) refl

  pub decrypt_file-sealed :
      (message : Bytes) (sink : Sink) (fuel : ℕ)
      → Takes sink
      → length message < fuel
      → crypto_secretbox_decrypt_file nacl
          (some (nacl.sealed key nonce message).0)
          (some sink)
          fuel
          key
          nonce
        ≡ wrote message
  unfolding crypto_secretbox_decrypt_file
  decrypt_file-sealed message sink fuel takes h =
      let (c, boxed, size, opened) = nacl.sealed key nonce message in
      let rest : length c - 32 ≡ length message = omega arith in
      rw
        (
          crypto_secretbox_decrypt_file,
          opened,
          rest,
          take_all (length message) message (omega arith),
          write_all-ends sink fuel message takes (omega arith),
        )
        refl

  -- A message is encrypted into a file of 32 bytes more, which is decrypted into the message with
  -- the same key and nonce, if each call of `fwrite` takes a byte at least and the fuel is more than
  -- the size of the encrypted file.
  pub decrypt-encrypt :
      (message : Bytes) (sink sink' : Sink) (fuel : ℕ)
      → Takes sink
      → Takes sink'
      → 32 + length message < fuel
      → (c : Bytes) × (crypto_secretbox_encrypt_file nacl (some message) (some sink) fuel key nonce
          ≡ wrote c)
        × (length c ≡ 32 + length message)
        × (crypto_secretbox_decrypt_file nacl (some c) (some sink') fuel key nonce ≡ wrote message)
  decrypt-encrypt message sink sink' fuel takes takes' h =
      let (c, boxed, size, opened) = nacl.sealed key nonce message in
      (
        c,
        encrypt_file-sealed message sink fuel takes h,
        size,
        decrypt_file-sealed message sink' fuel takes' (omega arith),
      )

  -- On a device that takes no byte, encryption does not end, whatever fuel it has.
  pub encrypt_file-full :
      (message : Bytes) (fuel : ℕ)
      → crypto_secretbox_encrypt_file nacl (some message) (some (λ i. 0)) fuel key nonce ≡ running
  unfolding crypto_secretbox_encrypt_file write_all
  encrypt_file-full message fuel =
      let (c, boxed, size, opened) = nacl.sealed key nonce message in
      rw
        (crypto_secretbox_encrypt_file, boxed, write_all, write_loop-full fuel 0 c [] (omega arith))
        refl

  -- A file of fewer than 32 bytes is not decrypted: the program exits, whatever the output is.
  pub decrypt_file_short :
      (c : Bytes) (outfile : Option Sink) (fuel : ℕ)
      → length c < 32
      → crypto_secretbox_decrypt_file nacl (some c) outfile fuel key nonce ≡ exited
  unfolding crypto_secretbox_decrypt_file
  decrypt_file_short c outfile fuel h =
      rw (crypto_secretbox_decrypt_file, nacl.open_short key nonce c h) refl

  -- Decryption into a descriptor at the start of a file that holds `old` leaves the message, and
  -- behind it what of `old` is longer.
  pub decrypt_fd-encrypt :
      (message old : Bytes) (sink sink' : Sink) (fuel : ℕ)
      → Takes sink
      → Takes sink'
      → 32 + length message < fuel
      → (c : Bytes) × (crypto_secretbox_encrypt_file nacl (some message) (some sink) fuel key nonce
          ≡ wrote c)
        × (crypto_secretbox_decrypt_fd nacl (some c) (some sink') fuel key nonce old 0
            ≡ wrote (message ++ drop (length message) old))
  unfolding crypto_secretbox_decrypt_fd
  decrypt_fd-encrypt message old sink sink' fuel takes takes' h =
      let (c, encrypted, size, decrypted) =
        decrypt-encrypt message sink sink' fuel takes takes' h in
      (c, encrypted, rw (crypto_secretbox_decrypt_fd, decrypted) (ground arith))
