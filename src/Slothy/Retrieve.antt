-- ===== src/Slothy/Retrieve.antt =====
-- slothy.cpp: what `download_artifact` leaves at the download location.
use race_slothy.Common.{
  ℕ, ◌+◌, ◌≤◌, ◌<◌, ◌≡◌, refl, ap, true, false, Option, some, List, ◌∷◌, ◌++◌, ◌==◌, arith, Bytes,
  IsByte, All, ltb, length, drop, take_all, drop-nil, append-nil, Malloc, ℤ,
}
use race_slothy.Base64.{base64_encode}
use race_slothy.Base64.RoundTrip.{base64_decode-encode}
use race_slothy.Header.{Sha256}
use race_slothy.Header.RoundTrip.{randomized, unrandomize-randomized}
use race_slothy.Secretbox.{Nacl, Sink, crypto_secretbox_decrypt_fd}
use race_slothy.Secretbox.RoundTrip.{Takes, decrypt_file-sealed}
use race_slothy.Shards.{Md5, Jerasure}
use race_slothy.Shards.Validate.{Vars}
use race_slothy.Shards.Unshard.{Decoder, overwrite}
use race_slothy.Download.Retry.{IsGood, body_of, download_good}
use race_slothy.Download.Unshard.{Address, content_of, download_and_unshard}
use race_slothy.Pipeline.{Sss, done, after_box}
use race_slothy.Slothy.{
  Answer, finished, fetched, after, mapped_string, decrypt_artifact, get_artifact,
  download_artifact,
}

fetched-good : (a : Address) → IsGood (a.replies 0) → fetched a ≡ some (body_of (a.replies 0))
unfolding fetched content_of
fetched-good a good =
    let d = a.files_before in
    let same : (d.next == d.next) ≡ true = ground arith in
    let got = download_good (a.replies 0) d good in
    rw (fetched, got) (rw (got, content_of, same) refl)

module _ (nacl : Nacl) (sha : Sha256) (heap : Malloc) (outfile : Sink) (fuel : ℕ)
    (key nonce message : Bytes) (key_size : length key ≡ 32) (nonce_size : length nonce ≡ 24)
    (takes : Takes outfile) (fueled : length message < fuel) (pre : Bytes)
    (pre_size : length pre ≡ 32) where
  -- The artifact as it is stored: encrypted and masked.
  abbrev pub stored_artifact : Bytes
  stored_artifact = randomized sha heap pre (nacl.sealed key nonce message).0

  decrypt_artifact-stored :
      decrypt_artifact nacl sha heap (some outfile) fuel key nonce stored_artifact ≡ done message
  unfolding decrypt_artifact after_box crypto_secretbox_decrypt_fd
  decrypt_artifact-stored =
      let (c, boxed, size, opened) = nacl.sealed key nonce message in
      let whole_key : ltb (length key) 32 ≡ false = ground (arith, key_size) in
      let whole_nonce : ltb (length nonce) 24 ≡ false = ground (arith, nonce_size) in
      rw
        (
          decrypt_artifact,
          whole_key,
          whole_nonce,
          unrandomize-randomized sha heap pre c pre_size (omega (arith, size)),
          take_all 32 key (omega (arith, key_size)),
          take_all 24 nonce (omega (arith, nonce_size)),
        )
        (rw
          (
            after_box,
            crypto_secretbox_decrypt_fd,
            decrypt_file-sealed nacl key nonce message outfile fuel takes fueled,
          )
          (rw (drop-nil, append-nil) refl))

  get_artifact-stored :
      (s : Answer) (a : Address) (urls : List Address) (room : ℕ) (location : Bytes)
      → All IsByte key
      → All IsByte nonce
      → s.so_sharded ≡ false
      → s.so ≡ a ∷ urls
      → IsGood (a.replies 0)
      → body_of (a.replies 0) ≡ stored_artifact
      → length message ≤ room
      → get_artifact nacl sha heap
          (some outfile)
          fuel
          s
          (base64_encode key, base64_encode nonce)
          room
          location
        ≡ finished true (message ++ drop (length message) location)
  unfolding get_artifact after overwrite
  get_artifact-stored s a urls room location key_bytes nonce_bytes whole so good body fits =
      let from_zero : 0 + length message ≡ length message = omega arith in
      rw
        (
          get_artifact,
          whole,
          so,
          fetched-good a good,
          body,
          base64_decode-encode key key_bytes (omega arith),
          base64_decode-encode nonce nonce_bytes (omega arith),
        )
        (rw (after, decrypt_artifact-stored)
          (rw (take_all room message fits)
            (ap (λ (k : ℕ). finished true (message ++ drop k location)) from_zero)))

  -- With a key of 32 bytes and a nonce of 24, fuel for an `fwrite` that takes a byte each time and a
  -- mask with a pre-image of 32 bytes: if the answer names shards that `download_and_unshard` joins
  -- into a file whose text has the key and the nonce in base64, and names an address whose first try
  -- gives the masked encryption of the artifact, and `write` takes all of it, `download_artifact`
  -- returns true and has written the artifact at the download location. What a longer file had there
  -- behind it is still there.
  pub download_artifact-stored :
      (sss : Sss) (md5 : Md5) (j : Jerasure) (dec : Decoder j) (filename : ℕ → Bytes)
      (metadata : Bytes → Option (Bytes × Bytes)) (s : Answer) (a : Address) (urls : List Address)
      (file text : Bytes) (gone : List Bytes) (garbage : Bytes) (vars : Vars) (pre_padded : ℤ)
      (room : ℕ) (location : Bytes)
      → All IsByte key
      → All IsByte nonce
      → s.json_sharded ≡ true
      → download_and_unshard filename nacl sss md5 j sha heap dec s.json
          (some outfile)
          fuel
          garbage
          vars
          pre_padded
        ≡ done (file, gone)
      → mapped_string file ≡ some text
      → metadata text ≡ some (base64_encode key, base64_encode nonce)
      → s.so_sharded ≡ false
      → s.so ≡ a ∷ urls
      → IsGood (a.replies 0)
      → body_of (a.replies 0) ≡ stored_artifact
      → length message ≤ room
      → download_artifact filename nacl sss md5 j sha heap dec metadata
          (some outfile)
          fuel
          (some s)
          garbage
          vars
          pre_padded
          room
          location
        ≡ finished true (message ++ drop (length message) location)
  unfolding download_artifact after
  download_artifact-stored sss md5 j dec filename metadata s a urls file text gone garbage vars
        pre_padded room location key_bytes nonce_bytes sharded joined mapped parsed whole so good
        body fits =
      rw (download_artifact, sharded, joined)
        (rw (after, mapped, parsed)
          (get_artifact-stored s a urls room location key_bytes nonce_bytes whole so good body
            fits))
