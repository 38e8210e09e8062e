-- ===== src/Race/App.antt =====
-- registry-client/src/race/client/RaceApp.cpp, race/UserInputResponseCache.cpp and
-- race/UserInputResponseParser.cpp: the answers to the questions of plugins, from a file and from a
-- cache, and the status of the SDK. The spans of the tracer are left out.
pub mod Answers
pub mod Status
mod Tests
use race_slothy.Common.{
  ◌≡◌, ◌≢◌, Bool, true, false, not, ◌&&◌, Option, none, some, List, [], ◌∷◌, ◌++◌, Bytes, codes,
  bytes_eq, if◌then◌else◌, ℤ, pos, negsuc, ◌>>=◌,
}
use race_slothy.Race.{JsonLib}

-- What the cache and the parser use of the library besides: `is_string`, `cache[key] = value` and
-- `dump`, which may throw, `parse`, and `operator>>` of a stream. `is_finite` says that no number in a
-- value is infinite or not a number; `dump` writes such a one as null.
pub record CacheLib (lib : JsonLib) : Type 0 where
  pub empty : lib.Json
  pub is_string : lib.Json → Bool
  pub is_finite : lib.Json → Bool
  pub set_member : lib.Json → Bytes → Bytes → Option lib.Json
  pub dump : lib.Json → Option Bytes
  pub parse : Bytes → Option lib.Json
  pub read : Bytes → Option lib.Json
  pub at-set_member :
      (v w : lib.Json) (key value : Bytes)
      → set_member v key value ≡ some w
      → lib.at w key ≡ some (lib.text value)
  pub parse-dump :
      (v : lib.Json) (b : Bytes) → is_finite v ≡ true → dump v ≡ some b → parse b ≡ some v
  pub is_finite-set_member :
      (v w : lib.Json) (key value : Bytes)
      → is_finite v ≡ true
      → set_member v key value ≡ some w
      → is_finite w ≡ true
  pub dump-ne-nil : (v : lib.Json) (b : Bytes) → dump v ≡ some b → b ≢ []

pub record UserResponse : Type 0 where
  pub answered : Bool
  pub response : Bytes
  pub delay_ms : ℤ

abbrev pub no_answer : UserResponse
no_answer = record { answered = false; response = []; delay_ms = pos 0 }

-- The cache in memory and its file, which is empty if there is none; the status, and whether the
-- SDK is ready.
pub record App (lib : JsonLib) : Type 0 where
  pub cache : lib.Json
  pub cache_file : Bytes
  pub ready : Bool
  pub current_sdk_status : lib.Json

abbrev pub cache_key : Bytes → Bytes → Bytes
cache_key plugin_id prompt = plugin_id ++ (codes "." ++ prompt)

module _ (lib : JsonLib) (more : CacheLib lib) where
  -- `none` is `std::out_of_range`.
  unfoldable pub get_response : App lib → Bytes → Bytes → Option Bytes
  get_response app plugin_id prompt = do
    v ← lib.at app.cache (cache_key plugin_id prompt)
    lib.to_text v

  -- `writeFile` succeeds or leaves the file as it is. `none` is an exception of `dump`.
  unfoldable pub write_cache : App lib → Bool → Option (Bool × App lib)
  write_cache app file_ok = do
    contents ← more.dump app.cache
    some (file_ok, record app { cache_file = if file_ok then contents else app.cache_file })

  unfoldable pub cache_response : App lib → Bytes → Bytes → Bytes → Bool → Option (Bool × App lib)
  cache_response app plugin_id prompt response file_ok = do
    cache ← more.set_member app.cache (cache_key plugin_id prompt) response
    write_cache (record app { cache = cache }) file_ok

  unfoldable pub clear_cache : App lib → Bool → Option (Bool × App lib)
  clear_cache app file_ok = write_cache (record app { cache = more.empty }) file_ok

  unfoldable pub read_cache : App lib → Bool × App lib
  read_cache app = elim app.cache_file [
    | [] ↦ (false, record app { cache = more.empty })
    | c ∷ contents ↦ elim (more.parse (c ∷ contents)) [
      | none ↦ (false, record app { cache = more.empty })
      | some v ↦ (true, record app { cache = v })
    ]
  ]

  -- A member, if there is one, converted; otherwise a default.
  unfoldable pub optional : {A : Type 0} → (lib.Json → Option A) → lib.Json → Bytes → A → Option A
  optional convert v key otherwise =
      if lib.contains v key then lib.at v key >>= convert else some otherwise

  -- The value for a prompt. `none` is the `parsing_exception`.
  unfoldable pub response_of : lib.Json → Option UserResponse
  response_of v =
      if more.is_string v
      then (do
        response ← lib.to_text v
        some (record { answered = true; response = response; delay_ms = pos 0 }))
      else if lib.is_object v
      then (do
        answered ← optional lib.to_bool v (codes "answered") true
        delay_ms ← optional lib.to_i32 v (codes "delayMs") (pos 0)
        response ← optional lib.to_text v (codes "response") []
        some (record { answered = answered; response = response; delay_ms = delay_ms }))
      else none

  -- `UserInputResponseParser::getResponse` with the file, which cannot be opened if it is `none`
  unfoldable pub parse_response : Option Bytes → Bytes → Bytes → Option UserResponse
  parse_response file plugin_id prompt = do
    text ← file
    response_json ← more.read text
    if lib.contains response_json plugin_id
        then (do
          plugin_responses ← lib.at response_json plugin_id
          if lib.contains plugin_responses prompt
              then lib.at plugin_responses prompt >>= response_of
              else none)
        else none

  unfoldable pub or_no_answer : Option UserResponse → UserResponse
  or_no_answer none = no_answer
  or_no_answer (some r) = r

  -- What is kept of an answer that did not come from the cache.
  unfoldable pub keep_answer :
      App lib → Bytes → Bytes → Bool → UserResponse → Bool → Option (UserResponse × App lib)
  keep_answer app plugin_id key cache r file_ok =
      if cache && r.answered
      then (do kept ← cache_response app plugin_id key r.response file_ok; some (r, kept.1))
      else some (r, app)

  -- `requestUserInput`: what `onUserInputReceived` is called with, after a sleep of `delay_ms`
  -- milliseconds where that is positive. `none` is an exception that leaves it.
  unfoldable pub request_user_input :
      App lib → Option Bytes → Bytes → Bytes → Bool → Bool → Option (UserResponse × App lib)
  request_user_input app file plugin_id key cache file_ok =
      let parsed = or_no_answer (parse_response file plugin_id key) in
      let fresh = keep_answer app plugin_id key cache parsed file_ok in
      if cache
      then elim (get_response app plugin_id key) [
        | some response ↦
            some (record { answered = true; response = response; delay_ms = pos 0 }, app)
        | none ↦ fresh
      ]
      else fresh

-- What becomes of a call that changes a state: the state and what is printed, the state at an
-- exception, or undefined behaviour.
pub data Outcome (A : Type 0) : Type 0 where
  returned : A → List Bytes → Outcome A
  thrown : A → Outcome A
  undefined : Outcome A

-- What is printed for the new status and the one before.
unfoldable pub ready_texts : Bool → Bool → List Bytes
ready_texts new_status ready =
    if new_status && not ready
    then codes "[RACE] App is ready to send.\n" ∷ []
    else if not new_status && ready
    then codes "[RACE] App is unready.\n" ∷ []
    else []

module _ (lib : JsonLib) where
  -- `== "PLUGIN_READY"`
  unfoldable pub is_plugin_ready : lib.Json → Bool
  is_plugin_ready status = elim (lib.to_text status) [
    | none ↦ false
    | some t ↦ bytes_eq t (codes "PLUGIN_READY")
  ]

  -- `onSdkStatusChanged`. The member is `network-manager-status`, or `ta1-status` in the plugin. The
  -- status is a const value: `[]` throws where it is no object, and is undefined where the member is
  -- missing.
  unfoldable pub on_sdk_status_changed : Bytes → App lib → lib.Json → Outcome (App lib)
  on_sdk_status_changed member app sdk_status =
      let current = record app { current_sdk_status = sdk_status } in
      if lib.is_object sdk_status
      then elim (lib.at sdk_status member) [
        | none ↦ undefined
        | some status ↦
            let new_status = is_plugin_ready status in
            returned (record current { ready = new_status }) (ready_texts new_status app.ready)
      ]
      else thrown current
