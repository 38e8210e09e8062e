-- ===== src/Race/App/Status.antt =====
-- RaceApp.cpp: what a sequence of calls of `onSdkStatusChanged` prints.
use race_slothy.Common.{
  ◌≡◌, refl, ◌⊎◌, inl, inr, Bool, true, false, Bool-cases, Option, none, some, List, [], ◌∷◌, ◌++◌,
  Bytes, codes, bytes_eq,
}
use race_slothy.Race.{JsonLib}
use race_slothy.Race.App.{
  App, returned, thrown, undefined, ready_texts, is_plugin_ready, on_sdk_status_changed,
}

abbrev pub is_ready_text : Bytes
is_ready_text = codes "[RACE] App is ready to send.\n"

abbrev pub is_unready_text : Bytes
is_unready_text = codes "[RACE] App is unready.\n"

-- Texts that alternate, from one that says that the app is not what it was.
unfoldable pub Alternates : Bool → List Bytes → Type 0
Alternates true [] = Unit
Alternates false [] = Unit
Alternates true (text ∷ texts) = (text ≡ is_unready_text) × Alternates false texts
Alternates false (text ∷ texts) = (text ≡ is_ready_text) × Alternates true texts

-- What a reader of the texts takes the app to be.
unfoldable pub told : Bool → List Bytes → Bool
told was [] = was
told was (text ∷ texts) = told (bytes_eq text is_ready_text) texts

ends : (ready : Bool) → Alternates ready []
unfolding Alternates
ends true = tt
ends false = tt

ready_texts-Alternates :
    (new was : Bool) (texts : List Bytes)
    → Alternates new texts
    → Alternates was (ready_texts new was ++ texts)
unfolding ready_texts Alternates
ready_texts-Alternates true true texts h = h
ready_texts-Alternates true false texts h = (refl, h)
ready_texts-Alternates false true texts h = (refl, h)
ready_texts-Alternates false false texts h = h

told-ready_texts :
    (new was : Bool) (texts : List Bytes) → told was (ready_texts new was ++ texts) ≡ told new texts
unfolding ready_texts told bytes_eq
told-ready_texts true true texts = refl
told-ready_texts true false texts = refl
told-ready_texts false true texts = refl
told-ready_texts false false texts = refl

found_or_none : {A : Type 0} (o : Option A) → (o ≡ none) ⊎ ((a : A) × (o ≡ some a))
found_or_none none = inl refl
found_or_none (some a) = inr (a, refl)

module _ (lib : JsonLib) (member : Bytes) where
  -- The app and all that is printed, after calls with the statuses; one that throws is followed by
  -- the next, and one that is undefined is the last.
  unfoldable pub status_changes : App lib → List lib.Json → App lib × List Bytes
  status_changes app [] = (app, [])
  status_changes app (sdk_status ∷ statuses) =
      elim (on_sdk_status_changed lib member app sdk_status) [
        | returned next texts ↦ let rest = status_changes next statuses in (rest.0, texts ++ rest.1)
        | thrown next ↦ status_changes next statuses
        | undefined ↦ (app, [])
      ]

  -- Whatever statuses follow one another, those on which a call throws included, up to the first that
  -- is an object without the member: the texts that say that the app is ready and that it is not
  -- alternate, beginning with the one that differs from what the app was, and the last of them says
  -- what the app then is.
  pub status_changes-Alternates :
      (app : App lib) (statuses : List lib.Json)
      → Alternates app.ready (status_changes app statuses).1
        × (told app.ready (status_changes app statuses).1 ≡ (status_changes app statuses).0.ready)
  unfolding status_changes on_sdk_status_changed told
  status_changes-Alternates app [] = (ends app.ready, refl)
  status_changes-Alternates app (sdk_status ∷ statuses) =
      let current = record app { current_sdk_status = sdk_status } in
      elim (Bool-cases (lib.is_object sdk_status)) [
        | inr other ↦
            rw (status_changes, on_sdk_status_changed, other)
              (status_changes-Alternates current statuses)
        | inl object ↦ elim (found_or_none (lib.at sdk_status member)) [
          | inl lost ↦
              rw (status_changes, on_sdk_status_changed, object, lost) (ends app.ready, refl)
          | inr (status, found) ↦
              let new = is_plugin_ready lib status in
              let next = record current { ready = new } in
              let rest = status_changes-Alternates next statuses in
              rw (status_changes, on_sdk_status_changed, object, found)
                (
                  ready_texts-Alternates new app.ready (status_changes next statuses).1 rest.0,
                  rw (told-ready_texts new app.ready (status_changes next statuses).1) rest.1,
                )
        ]
      ]
