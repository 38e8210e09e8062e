-- ===== src/Race/Await/Unanswered.antt =====
-- RaceInterface.cpp: the thread that waits while nothing in the queue is for it.
use mathlib.Core.Path.{subst}
use race_slothy.Common.{
  suc, ◌+◌, ◌≡◌, refl, sym, ap, ◌∙◌, Option, none, List, [], ◌∷◌, ◌++◌, append-nil, append_assoc,
  arith, Bytes, All-append, length,
}
use race_slothy.Race.{JsonLib}
use race_slothy.Race.Await.{Scanned, scanned, pass}
use race_slothy.Race.Await.Scan.{AllOther, scan_rest}
use race_slothy.Race.Await.Wakeup.{
  Phase, starting, waiting, woken, returned, left, broken, System, notified, after_pass, Event,
  message, notify, wait, spurious, scan, Step, put, tell, begin, wake, look, Run, stay, go,
}

-- The thread is still in the loop.
abbrev pub IsOpen : {J : Type 0} → Phase J → Type 0
IsOpen starting = Unit
IsOpen waiting = Unit
IsOpen woken = Unit
IsOpen (returned v) = ⊥
IsOpen left = ⊥
IsOpen broken = ⊥

-- The messages that come, in their order.
abbrev pub messages_of : List Event → List Bytes
messages_of [] = []
messages_of (message el ∷ es) = el ∷ messages_of es
messages_of (notify ∷ es) = messages_of es
messages_of (wait ∷ es) = messages_of es
messages_of (spurious ∷ es) = messages_of es
messages_of (scan ∷ es) = messages_of es

notified-IsOpen : {J : Type 0} (p : Phase J) → IsOpen p → IsOpen (notified p)
notified-IsOpen starting h = tt
notified-IsOpen waiting h = tt
notified-IsOpen woken h = tt
notified-IsOpen (returned v) h = h
notified-IsOpen left h = h
notified-IsOpen broken h = h

module _ (lib : JsonLib) (parse : Bytes → Option lib.Json) (header : Bytes) where
  abbrev Sys : Type 0
  Sys = System lib.Json

  pass-AllOther :
      (queue : List Bytes)
      → AllOther lib parse header queue
      → pass lib parse header queue ≡ scanned queue none
  unfolding pass
  pass-AllOther queue others =
      let fuel : suc (length queue) ≡ length queue + suc 0 = omega arith in
      rw (pass, fuel) (scan_rest lib parse header queue [] 0 none others)

  -- The queue holds nothing for the thread, which is in its loop.
  abbrev IsIdle : Sys → Type 0
  IsIdle s = AllOther lib parse header s.queue × IsOpen s.phase

  IsIdle-step :
      (e : Event) (es : List Event) (s t : Sys)
      → Step lib parse header e s t
      → AllOther lib parse header (messages_of (e ∷ es))
      → IsIdle s
      → IsIdle t
        × AllOther lib parse header (messages_of es)
        × (t.queue ++ messages_of es ≡ s.queue ++ messages_of (e ∷ es))
  IsIdle-step e es s t (put el _) (here, rest) (others, is_open) = (
    (All-append _ s.queue (el ∷ []) others (here, tt), is_open),
    rest,
    append_assoc s.queue (el ∷ []) (messages_of es),
  )
  IsIdle-step e es s t (tell _ n more) rest (others, is_open) =
      ((others, notified-IsOpen s.phase is_open), rest, refl)
  IsIdle-step e es s t (begin _ at_start) rest (others, is_open) = ((others, tt), rest, refl)
  IsIdle-step e es s t (wake _ is_waiting) rest (others, is_open) = ((others, tt), rest, refl)
  IsIdle-step e es s t (look _ is_woken) rest (others, is_open) =
      let result : after_pass s.queue (pass lib parse header s.queue) ≡ (s.queue, waiting) =
        ap (λ (r : Scanned lib.Json). after_pass s.queue r) (pass-AllOther s.queue others) in
      let same : t.queue ≡ s.queue = ap (λ (r : List Bytes × Phase lib.Json). r.0) result in
      let phase : t.phase ≡ waiting = ap (λ (r : List Bytes × Phase lib.Json). r.1) result in
      (
        (subst (AllOther lib parse header) (sym same) others, subst IsOpen (sym phase) tt),
        rest,
        ap (λ (q : List Bytes). q ++ messages_of es) same,
      )

  -- Neither the queue nor the messages that come hold anything for the thread, that is, they are no
  -- JSON or complete with other names. Then, in whatever order the events follow one another, the
  -- thread does not leave its loop, and all of the messages stay in the queue.
  pub wait_unanswered :
      (es : List Event) (s t : Sys)
      → Run lib parse header es s t
      → AllOther lib parse header s.queue
      → AllOther lib parse header (messages_of es)
      → IsOpen s.phase
      → IsOpen t.phase × (t.queue ≡ s.queue ++ messages_of es)
  wait_unanswered es s t (stay _) others rest is_open = (is_open, sym (append-nil s.queue))
  wait_unanswered es s t (go e es' _ u _ step run) others rest is_open =
      let (idle, rest', same) = IsIdle-step e es' s u step rest (others, is_open) in
      let (result, kept) = wait_unanswered es' u t run idle.0 rest' idle.1 in (result, kept ∙ same)
