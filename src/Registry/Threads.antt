-- ===== src/Registry/Threads.antt =====
-- registry-client/src/http/httpServer.cpp: the threads of the server. `run` is the main thread,
-- `handleClient` a client's, and `kill` is called by one more. A section that locks a mutex, makes
-- one access and unlocks it is one step, as nothing in it waits. A thread is its `pthread_t`, a
-- number of 64 bits, which `run` narrows to an `int` before it joins; no handle is given twice. The
-- model is of runs in which pthread_create succeeds. The mutexes are static, as is the pool: the
-- model is of one server.
pub mod Handles
pub mod Invariant
pub mod Shutdown
pub mod Deadlock
mod Tests
use race_slothy.Common.{
  ◌⊎◌, ℕ, ◌≡◌, Bool, true, false, List, [], ◌∷◌, ◌==◌, if◌then◌else◌, member, map, ltb, ◌+◌, ◌-◌,
  ◌%◌, ◌^◌,
}

-- Where `run` stands: at the top of its loop, at `accept`, before it puts a new thread into the
-- pool, before it takes the lock at its end, at `pthread_join` of the first of the keys that are
-- left, before it unlocks `allChildThreadsReaped`, or behind that; `undefined` is behind a
-- `pthread_join` of a value that is no thread or that was joined.
pub data Main : Type 0 where
  checking : Main
  accepting : Main
  adding : ℕ → Main
  stopping : Main
  joining : List ℕ → Main
  reaping : Main
  exited : Main
  undefined : Main

-- Where `kill` stands: before it is called, before it sets `shouldStop`, at its second
-- `allChildThreadsReaped.lock()`, at `pthread_join`, or behind that.
pub data Killer : Type 0 where
  not_called : Killer
  locked : Killer
  blocked : Killer
  waiting : Killer
  returned : Killer

-- Where a client's thread stands: not created, with its request, before `closeServerThread`, behind
-- it, ended, or joined.
pub data Client : Type 0 where
  absent : Client
  handling : Client
  closing : Client
  leaving : Client
  ended : Client
  joined : Client

pub record Server : Type 0 where
  pub should_stop : Bool
  pub pool : List ℕ
  pub pool_locked : Bool
  pub reaped_locked : Bool
  pub main : Main
  pub killer : Killer
  pub client : ℕ → Client

-- a thread's new place
abbrev pub update : (ℕ → Client) → ℕ → Client → ℕ → Client
update clients t c u = if t == u then c else clients u

-- `threadPool[t] = 1`
unfoldable pub insert : ℕ → List ℕ → List ℕ
insert t keys = if member t keys then keys else t ∷ keys

-- `threadPool.erase(t)`
unfoldable pub erase : ℕ → List ℕ → List ℕ
erase t [] = []
erase t (u ∷ keys) = let rest = erase t keys in if t == u then rest else u ∷ rest

-- A `pthread_t` as an `int`, and that as a `pthread_t` again.
unfoldable pub narrow : ℕ → ℕ
narrow t = let low = t % 2 ^ 32 in if ltb low (2 ^ 31) then low else low + (2 ^ 64 - 2 ^ 32)

pub data Step (s : Server) : Server → Type 0 where
  -- the test of `shouldStop`
  go_on : s.main ≡ checking → s.should_stop ≡ false → Step s (record s { main = accepting })
  stop : s.main ≡ checking → s.should_stop ≡ true → Step s (record s { main = stopping })
  -- `accept` gives -1, or a client, for which a thread is created
  accept_none : s.main ≡ accepting → Step s (record s { main = checking })
  accept_client :
      (t : ℕ)
      → s.main ≡ accepting
      → s.client t ≡ absent
      → Step s (record s { main = adding t; client = update s.client t handling })
  add :
      (t : ℕ)
      → s.main ≡ adding t
      → s.pool_locked ≡ false
      → Step s (record s { main = checking; pool = insert t s.pool })
  -- `threadPoolLock.lock()` and the copy of the keys into a vector of `int`
  collect :
      s.main ≡ stopping
      → s.pool_locked ≡ false
      → Step s (record s { main = joining (map narrow s.pool); pool_locked = true })
  join :
      (t : ℕ) (keys : List ℕ)
      → s.main ≡ joining (t ∷ keys)
      → s.client t ≡ ended
      → Step s (record s {
        main = joining keys;
        pool = erase t s.pool;
        client = update s.client t joined;
      })
  join_unknown :
      (t : ℕ) (keys : List ℕ)
      → s.main ≡ joining (t ∷ keys)
      → (s.client t ≡ absent) ⊎ (s.client t ≡ joined)
      → Step s (record s { main = undefined })
  all_joined : s.main ≡ joining [] → Step s (record s { main = reaping; pool_locked = false })
  reaped : s.main ≡ reaping → Step s (record s { main = exited; reaped_locked = false })
  -- `handleClient`: the answer is sent, or it returns early, without `closeServerThread`
  answered :
      (t : ℕ) → s.client t ≡ handling → Step s (record s { client = update s.client t closing })
  refused : (t : ℕ) → s.client t ≡ handling → Step s (record s { client = update s.client t ended })
  close_thread :
      (t : ℕ)
      → s.client t ≡ closing
      → s.pool_locked ≡ false
      → Step s (record s { client = update s.client t leaving; pool = erase t s.pool })
  leave : (t : ℕ) → s.client t ≡ leaving → Step s (record s { client = update s.client t ended })
  -- `kill`
  kill :
      s.killer ≡ not_called
      → s.reaped_locked ≡ false
      → Step s (record s { killer = locked; reaped_locked = true })
  set_stop : s.killer ≡ locked → Step s (record s { killer = blocked; should_stop = true })
  go_ahead :
      s.killer ≡ blocked
      → s.reaped_locked ≡ false
      → Step s (record s { killer = waiting; reaped_locked = true })
  joined_main : s.killer ≡ waiting → s.main ≡ exited → Step s (record s { killer = returned })

abbrev pub started : Server
started = record {
  should_stop = false;
  pool = [];
  pool_locked = false;
  reaped_locked = false;
  main = checking;
  killer = not_called;
  client = λ t. absent;
}

pub data Steps (s : Server) : Server → Type 0 where
  here : Steps s s
  later : {t u : Server} → Steps s t → Step t u → Steps s u
