-- ===== src/Slothy.antt =====
-- artifact-manager-plugin/src/slothy.cpp: `download_artifact`. The answer of the registry, what its
-- addresses give and the two strings of the parsed metadata are arguments. `write` to the file at
-- the download location takes so many bytes of it; a page has 4096 bytes.
pub mod Retrieve
mod Http
mod Tests
use race_slothy.Common.{
  ℕ, ◌%◌, Bool, true, false, Option, none, some, List, [], ◌∷◌, Bytes, ◌==◌, ltb, if◌then◌else◌,
  length, take, Malloc, ℤ,
}
use race_slothy.Base64.{base64_decode}
use race_slothy.Header
use race_slothy.Header.{Sha256, unrandomize_header}
use race_slothy.Secretbox.{Nacl, Sink, crypto_secretbox_decrypt_fd}
use race_slothy.Shards.{Md5, Jerasure}
use race_slothy.Shards.Validate.{Vars}
use race_slothy.Shards.Unshard.{Decoder, overwrite}
use race_slothy.Download.{download}
use race_slothy.Download.Unshard.{Address, content_of, download_and_unshard}
use race_slothy.Pipeline
use race_slothy.Pipeline.{Sss, Ended, after_box}

-- What the code reads of the answer.
pub record Answer : Type 0 where
  pub json_sharded : Bool
  pub json : List Address
  pub so_sharded : Bool
  pub so : List Address

-- How the download of an artifact ends: with its result and the content of the file at the download
-- location, with an exception, or as the calls do that it makes.
pub data Retrieval : Type 0 where
  finished : Bool → Bytes → Retrieval
  threw : Retrieval
  aborted : Retrieval
  exited : Retrieval
  fault : Retrieval
  running : Retrieval

unfoldable pub after : {A : Type 0} → Ended A → (A → Retrieval) → Retrieval
after (Pipeline.done a) next = next a
after Pipeline.aborted next = aborted
after Pipeline.exited next = exited
after Pipeline.fault next = fault
after Pipeline.running next = running

unfoldable pub until_zero : Bytes → Bytes
until_zero [] = []
until_zero (c ∷ text) = let rest = until_zero text in if c == 0 then [] else c ∷ rest

-- `std::string` of a mapped file: an empty one is not mapped, and one that fills its pages without a
-- zero is read behind its end.
unfoldable pub mapped_string : Bytes → Option Bytes
mapped_string file =
    let text = until_zero file in
    if length file == 0
    then none
    else if ltb (length text) (length file)
    then some text
    else if length file % 4096 == 0
    then none
    else some text

-- The file that a download has given.
unfoldable pub fetched : Address → Option Bytes
fetched a =
    let got = download (a.replies 0) a.files_before in
    elim got.0 [ none ↦ none | some fd ↦ content_of fd got.1.files ]

module _ (nacl : Nacl) (sha : Sha256) (heap : Malloc) (outfile : Option Sink) (fuel : ℕ) where
  -- The artifact from its encrypted file. `crypto_secretbox_open` reads 32 bytes of the key and 24 of
  -- the nonce; `unrandomize_header` may leave the file as it is.
  unfoldable pub decrypt_artifact : Bytes → Bytes → Bytes → Ended Bytes
  decrypt_artifact key nonce encrypted =
      let decrypt : Bytes → Ended Bytes = λ c.
        after_box
          (crypto_secretbox_decrypt_fd nacl (some c) outfile fuel (take 32 key) (take 24 nonce) []
            0)
          (λ bytes. Pipeline.done bytes) in
      if ltb (length key) 32
      then Pipeline.fault
      else if ltb (length nonce) 24
      then Pipeline.fault
      else elim (unrandomize_header sha heap (some encrypted)) [
        | Header.wrote bytes ↦ decrypt bytes
        | Header.failed ↦ decrypt encrypted
        | Header.fault ↦ Pipeline.fault
      ]

  -- The last part, with the two strings of the metadata. The file at the location is not cut.
  unfoldable pub get_artifact : Answer → Bytes × Bytes → ℕ → Bytes → Retrieval
  get_artifact s meta room location =
      let key = base64_decode meta.0 in
      let nonce = base64_decode meta.1 in
      if s.so_sharded then finished false location else elim s.so [
        | [] ↦ fault
        | a ∷ urls ↦ elim (fetched a) [
          | none ↦ fault
          | some encrypted ↦
              after (decrypt_artifact key nonce encrypted)
                (λ contents. finished true (overwrite location 0 (take room contents)))
        ]
      ]

module _ (filename : ℕ → Bytes) (nacl : Nacl) (sss : Sss) (md5 : Md5) (j : Jerasure) (sha : Sha256)
    (heap : Malloc) (dec : Decoder j) (metadata : Bytes → Option (Bytes × Bytes))
    (outfile : Option Sink) (fuel : ℕ) where
  -- Without shards of the metadata, `meta` stays null, and the read of its key throws.
  unfoldable pub download_artifact : Option Answer → Bytes → Vars → ℤ → ℕ → Bytes → Retrieval
  download_artifact none garbage vars pre_padded room location = threw
  download_artifact (some s) garbage vars pre_padded room location =
      if s.json_sharded
      then after
          (download_and_unshard filename nacl sss md5 j sha heap dec s.json outfile fuel garbage
            vars pre_padded)
          (λ joined. elim (mapped_string joined.0) [
            | none ↦ fault
            | some text ↦ elim (metadata text) [
              | none ↦ threw
              | some meta ↦ get_artifact nacl sha heap outfile fuel s meta room location
            ]
          ])
      else threw
