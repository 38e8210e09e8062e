-- ===== src/Race/Await/Waiting.antt =====
-- RaceInterface.cpp: when `awaitMessageWithHeader` returns, and when it never does.
use mathlib.Core.Path.{subst}
use race_slothy.Common.{
  suc, ◌≡◌, refl, sym, ap, ◌∙◌, ◌⊎◌, inl, inr, true, Option, none, some, List, [], ◌∷◌, ◌++◌,
  append-nil, arith, Bytes, All,
}
use race_slothy.Registry.Http.{c_str}
use race_slothy.Race.{JsonLib}
use race_slothy.Race.Await.{
  Scanned, complete, scanned, threw, fault, looping, pass, entry_of, has_members, entry_name,
}
use race_slothy.Race.Await.Scan.{AllOther}
use race_slothy.Race.Await.Passes.{pass-found}
use race_slothy.Race.Await.Ends.{pass-members}
use race_slothy.Race.Await.Wakeup.{
  Phase, starting, waiting, woken, returned, left, broken, System, notified, after_pass, Event,
  message, notify, wait, spurious, scan, Step, put, tell, begin, wake, look, Run, stay, go,
}

-- An event that is neither a new message nor a return of `wait` without a notification.
abbrev pub IsQuiet : Event → Type 0
IsQuiet (message el) = ⊥
IsQuiet notify = Unit
IsQuiet wait = Unit
IsQuiet spurious = ⊥
IsQuiet scan = Unit

abbrev IsWoken : {J : Type 0} → Phase J → Type 0
IsWoken starting = ⊥
IsWoken waiting = ⊥
IsWoken woken = Unit
IsWoken (returned v) = ⊥
IsWoken left = ⊥
IsWoken broken = ⊥

-- The thread has not come further than to wait.
abbrev IsBefore : {J : Type 0} → Phase J → Type 0
IsBefore p = (p ≡ starting) ⊎ (p ≡ waiting)

not_woken : {J : Type 0} {p : Phase J} → IsBefore p → ¬ (p ≡ woken)
not_woken (inl e) k = subst IsWoken (sym k ∙ e) tt
not_woken (inr e) k = subst IsWoken (sym k ∙ e) tt

module _ (lib : JsonLib) (parse : Bytes → Option lib.Json) (header : Bytes) where
  abbrev Sys : Type 0
  Sys = System lib.Json

  quiet_step :
      (e : Event) (s t : Sys)
      → Step lib parse header e s t
      → IsQuiet e
      → s.to_notify ≡ 0
      → IsBefore s.phase
      → IsBefore t.phase × (t.to_notify ≡ 0) × (t.queue ≡ s.queue)
  quiet_step e s t (put el _) q none_left before = absurd q
  quiet_step e s t (tell _ n more) q none_left before = absurd (omega arith)
  quiet_step e s t (begin _ at_start) q none_left before = (inr refl, none_left, refl)
  quiet_step e s t (wake _ is_waiting) q none_left before = absurd q
  quiet_step e s t (look _ is_woken) q none_left before = absurd (not_woken before is_woken)

  quiet_run :
      (es : List Event) (s t : Sys)
      → Run lib parse header es s t
      → All IsQuiet es
      → s.to_notify ≡ 0
      → IsBefore s.phase
      → IsBefore t.phase × (t.queue ≡ s.queue)
  quiet_run es s t (stay _) q none_left before = (before, refl)
  quiet_run es s t (go e rest _ u _ step run) (q, qs) none_left before =
      let (before', none_left', same) = quiet_step e s u step q none_left before in
      let (result, same') = quiet_run rest u t run qs none_left' before' in (result, same' ∙ same)

  -- Every message has been announced before the thread begins to wait. Then, until a further message
  -- comes or `wait` returns by itself, the thread does not come further than to wait and the queue
  -- stays as it is, also when it holds the response.
  pub wait-lost :
      (es : List Event) (s t : Sys)
      → Run lib parse header es s t
      → All IsQuiet es
      → s.to_notify ≡ 0
      → s.phase ≡ starting
      → ((t.phase ≡ starting) ⊎ (t.phase ≡ waiting)) × (t.queue ≡ s.queue)
  wait-lost es s t run quiet none_left at_start =
      quiet_run es s t run quiet none_left (inl at_start)

  -- A thread that waits, on a queue of entries that are no JSON or complete with other names: when
  -- the response comes and is announced, the next pass returns it and leaves the queue as it was.
  pub wait-served :
      (s : Sys) (el : Bytes) (v : lib.Json)
      → s.phase ≡ waiting
      → AllOther lib parse header s.queue
      → entry_of lib parse el ≡ complete header v
      → (t : Sys) × Run lib parse header (message el ∷ notify ∷ scan ∷ []) s t
        × (t.phase ≡ returned v)
        × (t.queue ≡ s.queue)
  wait-served s el v is_waiting others is =
      let added : Sys = record s { queue = s.queue ++ el ∷ []; to_notify = suc s.to_notify } in
      let told : Sys = record added { to_notify = s.to_notify; phase = notified added.phase } in
      let found : pass lib parse header told.queue ≡ scanned s.queue (some v) =
        pass-found lib parse header s.queue [] el v others is tt ∙ rw append-nil refl in
      let result = after_pass told.queue (pass lib parse header told.queue) in
      let done : result ≡ (s.queue, returned v) =
        ap (λ (r : Scanned lib.Json). after_pass told.queue r) found in
      let t : Sys = record told { queue = result.0; phase = result.1 } in
      (
        t,
        go (message el) (notify ∷ scan ∷ []) s added t (put el s) (
            go notify (scan ∷ []) added told t (tell added s.to_notify refl)
              (go scan [] told t t (look told (ap notified is_waiting)) (stay t))),
        ap (λ (r : List Bytes × Phase lib.Json). r.1) done,
        ap (λ (r : List Bytes × Phase lib.Json). r.0) done,
      )

  -- A JSON that a text of the queue stands for, with all members and the name.
  abbrev pub IsAnswer : lib.Json → Type 0
  IsAnswer v =
      ((el : Bytes) × (parse (c_str el) ≡ some v))
      × (has_members lib parse v ≡ true)
      × (entry_name lib parse v ≡ some header)

  HasAnswer : Phase lib.Json → Type 0
  HasAnswer starting = Unit
  HasAnswer waiting = Unit
  HasAnswer woken = Unit
  HasAnswer (returned v) = IsAnswer v
  HasAnswer left = Unit
  HasAnswer broken = Unit

  notified-HasAnswer : (p : Phase lib.Json) → HasAnswer p → HasAnswer (notified p)
  unfolding HasAnswer
  notified-HasAnswer starting h = tt
  notified-HasAnswer waiting h = tt
  notified-HasAnswer woken h = tt
  notified-HasAnswer (returned v) h = h
  notified-HasAnswer left h = tt
  notified-HasAnswer broken h = tt

  after_pass-HasAnswer :
      (queue : List Bytes) (r : Scanned lib.Json)
      → pass lib parse header queue ≡ r
      → HasAnswer (after_pass queue r).1
  unfolding HasAnswer
  after_pass-HasAnswer queue (scanned queue' none) e = tt
  after_pass-HasAnswer queue (scanned queue' (some v)) e =
      pass-members lib parse header queue queue' v e
  after_pass-HasAnswer queue threw e = tt
  after_pass-HasAnswer queue fault e = tt
  after_pass-HasAnswer queue looping e = tt

  step-HasAnswer :
      (e : Event) (s t : Sys) → Step lib parse header e s t → HasAnswer s.phase → HasAnswer t.phase
  unfolding HasAnswer
  step-HasAnswer e s t (put el _) h = h
  step-HasAnswer e s t (tell _ n more) h = notified-HasAnswer s.phase h
  step-HasAnswer e s t (begin _ at_start) h = tt
  step-HasAnswer e s t (wake _ is_waiting) h = tt
  step-HasAnswer e s t (look _ is_woken) h =
      after_pass-HasAnswer s.queue (pass lib parse header s.queue) refl

  run-HasAnswer :
      (es : List Event) (s t : Sys)
      → Run lib parse header es s t
      → HasAnswer s.phase
      → HasAnswer t.phase
  run-HasAnswer es s t (stay _) h = h
  run-HasAnswer es s t (go e rest _ u _ step run) h =
      run-HasAnswer rest u t run (step-HasAnswer e s u step h)

  -- However messages, notifications and passes follow one another: what the thread returns is the
  -- JSON of a text, has all five members, and its name is a text, the one that was asked for.
  pub returned-IsAnswer :
      (es : List Event) (s t : Sys) (v : lib.Json)
      → s.phase ≡ starting
      → Run lib parse header es s t
      → t.phase ≡ returned v
      → IsAnswer v
  unfolding HasAnswer
  returned-IsAnswer es s t v at_start run is =
      subst HasAnswer is (run-HasAnswer es s t run (subst HasAnswer (sym at_start) tt))
