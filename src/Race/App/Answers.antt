-- ===== src/Race/App/Answers.antt =====
-- RaceApp.cpp: which answers come from the cache, and when the status is printed.
use mathlib.Core.Bool.{false≢true}
use race_slothy.Common.{
  ◌≡◌, ◌≢◌, refl, sym, ap, ◌∙◌, Bool, true, false, inl, inr, Bool-cases, Option, none, some, [],
  ◌∷◌, Bytes, if◌then◌else◌, pos, ◌>>=◌,
}
use race_slothy.Race.{JsonLib}
use race_slothy.Race.App.{
  CacheLib, UserResponse, App, cache_key, get_response, write_cache, cache_response, read_cache,
  parse_response, or_no_answer, keep_answer, request_user_input,
}

-- A result of a chain comes from a result of its first part.
>>=-eq-some :
    {A B : Type 0} (m : Option A) (f : A → Option B) {b : B}
    → (m >>= f) ≡ some b
    → (a : A) × (m ≡ some a) × (f a ≡ some b)
>>=-eq-some none f h = absurd cc
>>=-eq-some (some a) f h = (a, refl, h)

some_pair :
    {A B : Type 0} (a c : A) (b d : B)
    → ◌≡◌ {A = Option (A × B)} (some (a, b)) (some (c, d))
    → (a ≡ c) × (b ≡ d)
some_pair {A} {B} a c b d e =
    let same : ◌≡◌ {A = A × B} (a, b) (c, d) =
      ap (λ (o : Option (A × B)). elim o [ none ↦ (a, b) | some q ↦ q ]) e in
    (ap (λ (q : A × B). q.0) same, ap (λ (q : A × B). q.1) same)

module _ (lib : JsonLib) (more : CacheLib lib) where
  -- What a call of `cacheResponse` leaves.
  cache_response_parts :
      (app : App lib) (plugin_id prompt response : Bytes) (file_ok : Bool) (kept : Bool × App lib)
      → cache_response lib more app plugin_id prompt response file_ok ≡ some kept
      → (cache : lib.Json) × (contents : Bytes) × (more.set_member app.cache
            (cache_key plugin_id prompt)
            response
          ≡ some cache)
        × (more.dump cache ≡ some contents)
        × (kept ≡ (
          file_ok,
          record app { cache = cache; cache_file = if file_ok then contents else app.cache_file },
        ))
  unfolding cache_response write_cache
  cache_response_parts app plugin_id prompt response file_ok kept e =
      let (cache, is_set, written) = >>=-eq-some _ _ e in
      let (contents, dumped, same) = >>=-eq-some _ _ written in
      (cache, contents, is_set, dumped, cc)

  read_contents :
      (started : App lib) (cache : lib.Json) (contents : Bytes)
      → started.cache_file ≡ contents
      → more.parse contents ≡ some cache
      → contents ≢ []
      → ((read_cache lib more started).0 ≡ true) × ((read_cache lib more started).1.cache ≡ cache)
  unfolding read_cache
  read_contents started cache [] e parsed filled = absurd (filled refl)
  read_contents started cache (c ∷ contents) e parsed filled =
      (rw (read_cache, e, parsed) refl, rw (read_cache, e, parsed) refl)

  get-set_member :
      (app : App lib) (old : lib.Json) (plugin_id prompt response : Bytes)
      → more.set_member old (cache_key plugin_id prompt) response ≡ some app.cache
      → get_response lib more app plugin_id prompt ≡ some response
  unfolding get_response
  get-set_member app old plugin_id prompt response e =
      rw (get_response, more.at-set_member old app.cache (cache_key plugin_id prompt) response e)
        (lib.to_text-text response)

  get-key :
      (app : App lib) (plugin_id prompt plugin_id' prompt' : Bytes)
      → cache_key plugin_id prompt ≡ cache_key plugin_id' prompt'
      → get_response lib more app plugin_id' prompt' ≡ get_response lib more app plugin_id prompt
  unfolding get_response
  get-key app plugin_id prompt plugin_id' prompt' e = rw (get_response, sym e) refl

  cached :
      (app : App lib) (file : Option Bytes) (plugin_id key response : Bytes) (file_ok : Bool)
      → get_response lib more app plugin_id key ≡ some response
      → request_user_input lib more app file plugin_id key true file_ok
        ≡ some (record { answered = true; response = response; delay_ms = pos 0 }, app)
  unfolding request_user_input
  cached app file plugin_id key response file_ok e = rw (request_user_input, e) refl

  not_cached :
      (app : App lib) (file : Option Bytes) (plugin_id key : Bytes) (file_ok : Bool)
      → get_response lib more app plugin_id key ≡ none
      → request_user_input lib more app file plugin_id key true file_ok
        ≡ keep_answer lib more app plugin_id key true
            (or_no_answer lib more (parse_response lib more file plugin_id key))
            file_ok
  unfolding request_user_input
  not_cached app file plugin_id key file_ok e = rw (request_user_input, e) refl

  kept_response :
      (app app' : App lib) (plugin_id key : Bytes) (given r : UserResponse) (file_ok : Bool)
      → keep_answer lib more app plugin_id key true given file_ok ≡ some (r, app')
      → r.answered ≡ true
      → get_response lib more app' plugin_id key ≡ some r.response
  unfolding keep_answer
  kept_response app app' plugin_id key given r file_ok e answered =
      elim (Bool-cases given.answered) [
        | inl yes_given ↦
            let kept_eq : (cache_response lib more app plugin_id key given.response file_ok
                  >>= λ kept. some (given, kept.1))
                ≡ some (r, app') =
              sym (rw (keep_answer, yes_given) refl) ∙ e in
            let (kept, stored, result) = >>=-eq-some _ _ kept_eq in
            let (same_r, same_app) = some_pair given r kept.1 app' result in
            let (cache, contents, is_set, dumped, kept_is) =
              cache_response_parts app plugin_id key given.response file_ok kept stored in
            let found : get_response lib more kept.1 plugin_id key ≡ some given.response =
              get-set_member kept.1 app.cache plugin_id key given.response
                (is_set ∙ ap (λ (q : Bool × App lib). some q.1.cache) (sym kept_is)) in
            ap (λ (a : App lib). get_response lib more a plugin_id key) (sym same_app)
            ∙ found
            ∙ ap (λ (u : UserResponse). some u.response) same_r
        | inr no_given ↦
            let kept_eq : some (given, app) ≡ some (r, app') =
              sym (rw (keep_answer, no_given) refl) ∙ e in
            let (same_r, same_app) = some_pair given r app app' kept_eq in
            let clash : false ≡ true =
              sym no_given ∙ ap (λ (u : UserResponse). u.answered) same_r ∙ answered in
            absurd (false≢true clash)
      ]

  response_kept :
      (app app' : App lib) (file : Option Bytes) (plugin_id key : Bytes) (r : UserResponse)
      (file_ok : Bool) (found : Option Bytes)
      → get_response lib more app plugin_id key ≡ found
      → request_user_input lib more app file plugin_id key true file_ok ≡ some (r, app')
      → r.answered ≡ true
      → get_response lib more app' plugin_id key ≡ some r.response
  response_kept app app' file plugin_id key r file_ok none e asked answered =
      kept_response app app' plugin_id key
        (or_no_answer lib more (parse_response lib more file plugin_id key)) r file_ok
        (sym (not_cached app file plugin_id key file_ok e) ∙ asked) answered
  response_kept app app' file plugin_id key r file_ok (some response) e asked answered =
      let (same_r, same_app) =
        some_pair (record { answered = true; response = response; delay_ms = pos 0 }) r app app'
          (sym (cached app file plugin_id key response file_ok e) ∙ asked) in
      ap (λ (a : App lib). get_response lib more a plugin_id key) (sym same_app)
      ∙ e
      ∙ ap (λ (u : UserResponse). some u.response) same_r

  -- A question that may be cached has been answered. The next question with the same key, whose
  -- answer may be cached, gets the same response, without a delay and whatever the file of responses
  -- says by then, and changes nothing. The key is the id of the plugin, a dot and the prompt: the
  -- question may be that of another plugin.
  pub request_user_input-again :
      (app app' : App lib) (file file' : Option Bytes) (plugin_id key plugin_id' key' : Bytes)
      (r : UserResponse) (file_ok file_ok' : Bool)
      → request_user_input lib more app file plugin_id key true file_ok ≡ some (r, app')
      → r.answered ≡ true
      → cache_key plugin_id key ≡ cache_key plugin_id' key'
      → request_user_input lib more app' file' plugin_id' key' true file_ok'
        ≡ some (record { answered = true; response = r.response; delay_ms = pos 0 }, app')
  request_user_input-again app app' file file' plugin_id key plugin_id' key' r file_ok file_ok'
        asked answered same =
      cached app' file' plugin_id' key' r.response file_ok' (
        get-key app' plugin_id key plugin_id' key' same
        ∙ response_kept app app' file plugin_id key r file_ok
            (get_response lib more app plugin_id key) refl asked answered)

  -- A response that was written to the cache and its file is found again by a program that starts
  -- with that file and reads it, when no number in the cache was infinite or not a number.
  pub read_cache-cache_response :
      (app started : App lib) (plugin_id prompt response : Bytes) (kept : Bool × App lib)
      → cache_response lib more app plugin_id prompt response true ≡ some kept
      → started.cache_file ≡ kept.1.cache_file
      → more.is_finite app.cache ≡ true
      → ((read_cache lib more started).0 ≡ true)
        × (get_response lib more (read_cache lib more started).1 plugin_id prompt ≡ some response)
  unfolding read_cache
  read_cache-cache_response app started plugin_id prompt response kept stored same_file finite =
      let (cache, contents, is_set, dumped, kept_is) =
        cache_response_parts app plugin_id prompt response true kept stored in
      let written : started.cache_file ≡ contents =
        same_file ∙ ap (λ (q : Bool × App lib). q.1.cache_file) kept_is in
      let read_back =
        read_contents started cache contents written
          (more.parse-dump cache contents
            (more.is_finite-set_member app.cache cache _ response finite is_set) dumped)
          (more.dump-ne-nil cache contents dumped) in
      (
        read_back.0,
        get-set_member (read_cache lib more started).1 app.cache plugin_id prompt response
            (is_set ∙ ap some (sym read_back.1)),
      )
