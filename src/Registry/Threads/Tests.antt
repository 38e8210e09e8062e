-- ===== src/Registry/Threads/Tests.antt =====
-- The theorems on the server's threads at concrete runs.
use race_slothy.Common.{ℕ, zero, suc, ◌==◌, ◌+◌, ◌≡◌, refl, ◌⊎◌, true, false, [], arith, member}
use race_slothy.Registry.Threads.{
  returned, Server, insert, erase, Step, go_on, stop, accept_client, add, collect, join, refused,
  ended, narrow, all_joined, reaped, answered, kill, set_stop, go_ahead, joined_main, Steps, here,
  later, started,
}
use race_slothy.Registry.Threads.Shutdown.{
  IsDistinct, IsIdle, IsStage, to_join, remaining, run_length, kill-returns,
}

-- A server that goes on from where some steps have led.
abbrev Run : Type 0
Run = (s : Server) × Steps started s

abbrev after : (r : Run) (u : Server) → Step r.0 u → Run
after r u step = (u, later r.1 step)

-- A client is accepted, and its thread is put into the pool.
abbrev one_client : Run
unfolding insert member
one_client =
    let a = after (started, here) _ (go_on refl refl) in
    let b = after a _ (accept_client 0 refl refl) in after b _ (add 0 refl refl)

-- It is refused, which leaves its thread in the pool, and the server is stopped.
abbrev stopped : Run
unfolding one_client
stopped =
    let c = after one_client _ (refused 0 refl) in
    let d = after c _ (kill refl refl) in
    let e = after d _ (set_stop refl) in after e _ (stop refl refl)

abbrev finished : Run
unfolding stopped narrow erase
finished =
    let x = after stopped _ (collect refl refl) in
    let a = after x _ (join 0 [] refl refl) in
    let b = after a _ (all_joined refl) in
    let c = after b _ (reaped refl) in
    let d = after c _ (go_ahead refl refl) in after d _ (joined_main refl refl)

-- The thread is joined, but `kill` still waits.
abbrev halfway : (u : Server) × Steps stopped.0 u
unfolding stopped narrow erase
halfway =
    (_, later (later (later here (collect refl refl)) (join 0 [] refl refl)) (all_joined refl))

stopped-joinable :
    (t : ℕ) → member t (to_join stopped.0.main stopped.0.pool) ≡ true → stopped.0.client t ≡ ended
unfolding stopped to_join narrow member
stopped-joinable zero inside = refl
stopped-joinable (suc t) inside = absurd (ground (arith, inside))

stopped-IsIdle : (t : ℕ) → IsIdle (stopped.0.client t)
unfolding stopped IsIdle
stopped-IsIdle zero = tt
stopped-IsIdle (suc t) = let other : (0 == suc t) ≡ false = ground arith in rw (IsIdle, other) tt

kill-returns_example :
    ((halfway.0.killer ≡ returned) ⊎ ((v : Server) × Step halfway.0 v))
    × (run_length halfway.1 + remaining halfway.0.main halfway.0.killer halfway.0.pool
        ≡ remaining stopped.0.main stopped.0.killer stopped.0.pool)
unfolding stopped IsStage to_join member IsDistinct narrow
kill-returns_example = kill-returns stopped.0 halfway.0 halfway.1 (record {
  idle = stopped-IsIdle;
  stage = (refl, refl, refl);
  joinable = stopped-joinable;
  distinct = (refl, tt);
})

-- Two clients, the second of which is about to close its thread when the server is stopped.
abbrev stuck : Run
unfolding one_client insert member narrow
stuck =
    let a = after one_client _ (go_on refl refl) in
    let b = after a _ (accept_client 1 refl refl) in
    let c = after b _ (add 1 refl refl) in
    let d = after c _ (answered 1 refl) in
    let e = after d _ (kill refl refl) in
    let f = after e _ (set_stop refl) in
    let g = after f _ (stop refl refl) in after g _ (collect refl refl)

abbrev later_on : (u : Server) × Steps stuck.0 u
unfolding stuck
later_on = (_, later here (answered 0 refl))
