-- ===== src/Slothy/Http.antt =====
-- artifact-manager-plugin/src/interfaces/http/slothy-http.cpp: `get_artifact_registry_info`, which
-- gets the registry's answer over HTTP. What libcurl reports is an argument, and so is nlohmann's
-- parser; reading the file in memory does not fail.
use race_slothy.Common.{◌≡◌, refl, ◌==◌, ◌+◌, true, Option, none, some, ◌∷◌, Bytes, arith}
use race_slothy.Download.{Disk, Reply, download}
use race_slothy.Download.Retry.{IsGood, body_of, download_good, download_bad}
use race_slothy.Download.Unshard.{content_of}

-- The JSON, an exception of the parser, or a null pointer that is followed.
pub data RegistryInfo (Json : Type 0) : Type 0 where
  info : Json → RegistryInfo Json
  threw : RegistryInfo Json
  fault : RegistryInfo Json

module _ {Json : Type 0} (parse : Bytes → Option Json) where
  unfoldable pub parsed_info : Option Bytes → RegistryInfo Json
  parsed_info none = fault
  parsed_info (some s) = elim (parse s) [ none ↦ threw | some v ↦ info v ]

  -- The result, and the files in memory: the one that was read is not closed.
  unfoldable pub get_artifact_registry_info : Reply → Disk → RegistryInfo Json × Disk
  get_artifact_registry_info reply d =
      let got = download reply d in
      elim got.0 [
        | none ↦ (fault, got.1)
        | some fd ↦ (parsed_info (content_of fd got.1.files), got.1)
      ]

  -- A response with code 200 gives what the parser makes of its whole body, in however many parts it
  -- came, and leaves one more file in memory.
  get_artifact_registry_info_good :
      (reply : Reply) (d : Disk)
      → IsGood reply
      → get_artifact_registry_info reply d ≡ (
        parsed_info (some (body_of reply)),
        record { next = d.next + 1; files = (d.next, body_of reply) ∷ d.files },
      )
  unfolding get_artifact_registry_info content_of
  get_artifact_registry_info_good reply d good =
      let same : (d.next == d.next) ≡ true = ground arith in
      rw (get_artifact_registry_info, download_good reply d good)
        (rw (download_good reply d good) (rw (content_of, same) refl))

  -- Anything else follows a null pointer.
  get_artifact_registry_info_bad :
      (reply : Reply) (d : Disk) → ¬ (IsGood reply) → (get_artifact_registry_info reply d).0 ≡ fault
  unfolding get_artifact_registry_info
  get_artifact_registry_info_bad reply d bad =
      rw (get_artifact_registry_info, download_bad reply d bad) refl
