-- ===== src/Registry/Threads/Deadlock.antt =====
-- httpServer.cpp: `run` joins the threads of the pool while it holds `threadPoolLock`, which
-- `closeServerThread` locks.
use race_slothy.Common.{ℕ, ◌≡◌, true, List, ◌∷◌}
use race_slothy.Registry.Threads.{Main, joining, blocked, closing, Server}

-- The main thread is about to join `t`, which is about to lock the pool; `kill` waits for the main
-- thread.
pub record IsStuck (t : ℕ) (keys : List ℕ) (s : Server) : Type 0 where
  pub at_join : s.main ≡ joining (t ∷ keys)
  pub at_lock : s.client t ≡ closing
  pub at_kill : s.killer ≡ blocked
  pub pool_held : s.pool_locked ≡ true
  pub reaped_held : s.reaped_locked ≡ true

-- The thread to join first.
next_join : Main → ℕ
next_join (joining (t ∷ keys)) = t
next_join _ = 0
