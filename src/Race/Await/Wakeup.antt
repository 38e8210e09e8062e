-- ===== src/Race/Await/Wakeup.antt =====
-- RaceInterface.cpp: the thread that waits in `awaitMessageWithHeader` and the calls of
-- `handleReceivedMessage`, as a step relation. A call puts its message into the queue and then
-- notifies; a thread that does not wait misses a notification. A pass over the queue is one step, as
-- it holds the lock of the queue. `wait` may also return without a notification. An
-- exception leaves the queue locked; what comes after it is no subject of the theorems.
use race_slothy.Common.{ℕ, suc, ◌≡◌, Option, none, some, List, [], ◌∷◌, ◌++◌, Bytes}
use race_slothy.Race.{JsonLib}
use race_slothy.Race.Await.{Scanned, scanned, threw, fault, looping, pass}

pub data Phase (Json : Type 0) : Type 0 where
  starting : Phase Json
  waiting : Phase Json
  woken : Phase Json
  returned : Json → Phase Json
  left : Phase Json
  broken : Phase Json

-- The queue, how many calls have put their message into it and have not yet notified, and the thread.
pub record System (Json : Type 0) : Type 0 where
  pub queue : List Bytes
  pub to_notify : ℕ
  pub phase : Phase Json

abbrev pub notified : {J : Type 0} → Phase J → Phase J
notified starting = starting
notified waiting = woken
notified woken = woken
notified (returned v) = returned v
notified left = left
notified broken = broken

-- What the thread does after a pass: it returns the response, waits again, or is ended.
abbrev pub after_pass : {J : Type 0} → List Bytes → Scanned J → List Bytes × Phase J
after_pass queue (scanned queue' none) = (queue', waiting)
after_pass queue (scanned queue' (some v)) = (queue', returned v)
after_pass queue threw = (queue, left)
after_pass queue fault = (queue, broken)
after_pass queue looping = (queue, broken)

pub data Event : Type 0 where
  message : Bytes → Event
  notify : Event
  wait : Event
  spurious : Event
  scan : Event

module _ (lib : JsonLib) (parse : Bytes → Option lib.Json) (header : Bytes) where
  pub data Step : Event → System lib.Json → System lib.Json → Type 0 where
    put :
        (el : Bytes) (s : System lib.Json)
        → Step (message el) s (record s { queue = s.queue ++ el ∷ []; to_notify = suc s.to_notify })
    tell :
        (s : System lib.Json) (n : ℕ)
        → s.to_notify ≡ suc n
        → Step notify s (record s { to_notify = n; phase = notified s.phase })
    begin : (s : System lib.Json) → s.phase ≡ starting → Step wait s (record s { phase = waiting })
    wake : (s : System lib.Json) → s.phase ≡ waiting → Step spurious s (record s { phase = woken })
    look :
        (s : System lib.Json)
        → s.phase ≡ woken
        → Step scan s (record s {
          queue = (after_pass s.queue (pass lib parse header s.queue)).0;
          phase = (after_pass s.queue (pass lib parse header s.queue)).1;
        })

  pub data Run : List Event → System lib.Json → System lib.Json → Type 0 where
    stay : (s : System lib.Json) → Run [] s s
    go :
        (e : Event) (es : List Event) (s t u : System lib.Json)
        → Step e s t
        → Run es t u
        → Run (e ∷ es) s u
