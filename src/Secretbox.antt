-- ===== src/Secretbox.antt =====
-- artifact-manager-plugin/src/util/crypto_secretbox.cpp: encryption and decryption of a file.
-- NaCl's secretbox is a record of its two calls. A file that `fopen` does not open is `none`: the
-- null pointer then goes to `fseek` or to `fwrite`, which is a `fault`. `exit(-1)` is `exited`.
-- `fread` of an opened file gives the bytes that `ftell` counted.
pub mod RoundTrip
pub mod Tests
use race_slothy.Common.{
  ℕ, zero, suc, ◌+◌, ◌-◌, ◌<◌, ◌≤◌, ◌≡◌, min, Bool, true, false, Option, none, some, [], ◌∷◌, ◌++◌,
  Bytes, ltb, if◌then◌else◌, length, take, drop, replicate,
}

-- `crypto_secretbox_ZEROBYTES`
abbrev pub zerobytes : ℕ
zerobytes = 32

-- `crypto_secretbox(c, m, mlen, nonce, key)` and `crypto_secretbox_open(m, c, mlen, nonce, key)`
-- of NaCl, on buffers with 32 bytes in front: what is written to the other buffer, `none` if they
-- return -1. A message behind 32 zeros is boxed, and opening the box with the same key and nonce
-- gives it back; a buffer of fewer than 32 bytes is not opened.
pub record Nacl : Type 0 where
  pub secretbox : Bytes → Bytes → Bytes → Option Bytes
  pub secretbox_open : Bytes → Bytes → Bytes → Option Bytes
  pub sealed :
      (key nonce message : Bytes)
      → (c : Bytes) × (secretbox key nonce (replicate zerobytes 0 ++ message) ≡ some c)
        × (length c ≡ zerobytes + length message)
        × (secretbox_open key nonce c ≡ some (replicate zerobytes 0 ++ message))
  pub open_short : (key nonce c : Bytes) → length c < zerobytes → secretbox_open key nonce c ≡ none

-- How a call ends: with a file written, by `exit(-1)`, outside of defined behaviour, or not within
-- the rounds of fuel.
pub data Outcome : Type 0 where
  wrote : Bytes → Outcome
  exited : Outcome
  fault : Outcome
  running : Outcome

-- What an opened output file takes: of `fwrite` number `i`, `n` bytes at most.
abbrev pub Sink : Type 0
Sink = ℕ → ℕ

-- `do len += fwrite(&buf[len], 1, total - len, fp); while (len < total);` from round `i` on, with
-- what is still to be written and what the file holds; `none` is the end of the fuel.
unfoldable pub write_loop : Sink → ℕ → ℕ → Bytes → Bytes → Option Bytes
write_loop sink zero i rest file = none
write_loop sink (suc fuel) i rest file =
    let n = min (sink i) (length rest) in
    let more = write_loop sink fuel (i + 1) (drop n rest) (file ++ take n rest) in
    if ltb n (length rest) then more else some (file ++ take n rest)

unfoldable pub write_all : Option Sink → ℕ → Bytes → Outcome
write_all none fuel bytes = fault
write_all (some sink) fuel bytes = elim (write_loop sink fuel 0 bytes []) [
  | none ↦ running
  | some file ↦ wrote file
]

module _ (nacl : Nacl) where
  unfoldable pub crypto_secretbox_encrypt_file :
      Option Bytes → Option Sink → ℕ → Bytes → Bytes → Outcome
  crypto_secretbox_encrypt_file none outfile fuel key nonce = fault
  crypto_secretbox_encrypt_file (some message) outfile fuel key nonce =
      elim (nacl.secretbox key nonce (replicate zerobytes 0 ++ message)) [
        | none ↦ exited
        | some c ↦ write_all outfile fuel c
      ]

  -- A box that is opened has 32 bytes or more, so `mlen - crypto_secretbox_ZEROBYTES` does not wrap
  -- around where it is used.
  unfoldable pub crypto_secretbox_decrypt_file :
      Option Bytes → Option Sink → ℕ → Bytes → Bytes → Outcome
  crypto_secretbox_decrypt_file none outfile fuel key nonce = fault
  crypto_secretbox_decrypt_file (some c) outfile fuel key nonce =
      elim (nacl.secretbox_open key nonce c) [
        | none ↦ exited
        | some m ↦ write_all outfile fuel (take (length c - zerobytes) (drop zerobytes m))
      ]

  -- The output is written at the position of the descriptor; `fdopen` does not cut the file.
  unfoldable pub crypto_secretbox_decrypt_fd :
      Option Bytes → Option Sink → ℕ → Bytes → Bytes → Bytes → ℕ → Outcome
  crypto_secretbox_decrypt_fd infile outfile fuel key nonce old at =
      elim (crypto_secretbox_decrypt_file infile outfile fuel key nonce) [
        | wrote bytes ↦ wrote (take at old ++ bytes ++ drop (at + length bytes) old)
        | exited ↦ exited
        | fault ↦ fault
        | running ↦ running
      ]
