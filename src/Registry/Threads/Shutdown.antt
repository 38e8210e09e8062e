-- ===== src/Registry/Threads/Shutdown.antt =====
-- httpServer.cpp: the end of the server when no client's thread is left.
use mathlib.Core.Path.{subst}
use race_slothy.Common.{
  Bool-cases, ◌==◌, if◌then◌else◌, ℕ, suc, ◌+◌, ◌≡◌, refl, sym, ap, ◌∙◌, ◌⊎◌, inl, inr, Bool, true,
  false, List, [], ◌∷◌, arith, member, length, map,
}
use race_slothy.Registry.Threads.{
  joined, update, Main, checking, accepting, adding, stopping, joining, reaping, exited, undefined,
  Killer, not_called, locked, blocked, waiting, returned, Client, absent, handling, closing,
  leaving, ended, Server, Step, go_on, stop, accept_none, accept_client, add, collect, join,
  join_unknown, all_joined, reaped, answered, refused, close_thread, leave, kill, set_stop,
  go_ahead, joined_main, Steps, here, later, narrow,
}

-- The values that are still to be joined.
unfoldable pub to_join : Main → List ℕ → List ℕ
to_join stopping pool = map narrow pool
to_join (joining keys) pool = keys
to_join _ pool = []

-- Where the main thread and `kill` stand while the server ends, with the two locks.
unfoldable pub IsStage : Main → Killer → Bool → Bool → Type 0
IsStage stopping k p r = (k ≡ blocked) × (p ≡ false) × (r ≡ true)
IsStage (joining keys) k p r = (k ≡ blocked) × (p ≡ true) × (r ≡ true)
IsStage reaping k p r = (k ≡ blocked) × (p ≡ false) × (r ≡ true)
IsStage exited k p r = ((k ≡ blocked) × (r ≡ false)) ⊎ ((k ≡ waiting) ⊎ (k ≡ returned))
IsStage _ k p r = ⊥

-- A thread that was not created or has ended.
unfoldable pub IsIdle : Client → Type 0
IsIdle absent = Unit
IsIdle handling = ⊥
IsIdle closing = ⊥
IsIdle leaving = ⊥
IsIdle ended = Unit
IsIdle joined = Unit

-- No value is there twice.
unfoldable pub IsDistinct : List ℕ → Type 0
IsDistinct [] = Unit
IsDistinct (t ∷ keys) = (member t keys ≡ false) × IsDistinct keys

-- The server ends: `kill` was called, the main thread has seen it, and no client's thread is left.
pub record IsEnding (s : Server) : Type 0 where
  pub idle : (t : ℕ) → IsIdle (s.client t)
  pub stage : IsStage s.main s.killer s.pool_locked s.reaped_locked
  pub joinable : (t : ℕ) → member t (to_join s.main s.pool) ≡ true → s.client t ≡ ended
  pub distinct : IsDistinct (to_join s.main s.pool)

length-map-narrow : (keys : List ℕ) → length (map narrow keys) ≡ length keys
length-map-narrow [] = refl
length-map-narrow (t ∷ keys) = ap suc (length-map-narrow keys)

ended_created : ended ≡ absent → ⊥
ended_created e = cc

ended_once : ended ≡ joined → ⊥
ended_once e = cc

-- How many steps are left.
unfoldable pub remaining : Main → Killer → List ℕ → ℕ
remaining stopping k pool = length pool + 5
remaining (joining keys) k pool = length keys + 4
remaining reaping k pool = 3
remaining exited blocked pool = 2
remaining exited waiting pool = 1
remaining exited _ pool = 0
remaining _ k pool = 0

module _ (s : Server) (h : IsEnding s) where
  IsStage-at : (m : Main) → s.main ≡ m → IsStage m s.killer s.pool_locked s.reaped_locked
  IsStage-at m e = subst (λ (n : Main). IsStage n s.killer s.pool_locked s.reaped_locked) e h.stage

  none_left : (t : ℕ) (c : Client) → s.client t ≡ c → (IsIdle c → ⊥) → ⊥
  none_left t c e busy = busy (subst IsIdle e (h.idle t))

  joinable_at :
      (m : Main) (t : ℕ) → s.main ≡ m → member t (to_join m s.pool) ≡ true → s.client t ≡ ended
  joinable_at m t e =
      subst (λ (n : Main). member t (to_join n s.pool) ≡ true → s.client t ≡ ended) e (h.joinable t)

  IsDistinct-at : (m : Main) → s.main ≡ m → IsDistinct (to_join m s.pool)
  IsDistinct-at m e = subst (λ (n : Main). IsDistinct (to_join n s.pool)) e h.distinct

  joined-IsIdle : (t u : ℕ) → IsIdle (update s.client t joined u)
  unfolding IsIdle
  joined-IsIdle t u = elim (Bool-cases (t == u)) [
    | inl e ↦ rw (IsIdle, e) tt
    | inr e ↦ subst (λ (b : Bool). IsIdle (if b then joined else s.client u)) (sym e) (h.idle u)
  ]

  still_joinable :
      (t u : ℕ) (keys : List ℕ)
      → s.main ≡ joining (t ∷ keys)
      → member u keys ≡ true
      → update s.client t joined u ≡ ended
  unfolding to_join member IsDistinct
  still_joinable t u keys e inside = elim (Bool-cases (t == u)) [
    | inl same ↦
        let is : t ≡ u = ground arith in
        let apart : member u keys ≡ false =
          subst (λ (v : ℕ). member v keys ≡ false) is (IsDistinct-at (joining (t ∷ keys)) e).0 in
        absurd (ground (arith, inside, apart))
    | inr other ↦ rw other (joinable_at (joining (t ∷ keys)) u e (ground (arith, inside)))
  ]

  -- `kill` has set `shouldStop`.
  killer_cases :
      (m : Main) (k : Killer) (p r : Bool)
      → IsStage m k p r
      → (k ≡ blocked) ⊎ ((k ≡ waiting) ⊎ (k ≡ returned))
  unfolding IsStage
  killer_cases checking k p r g = absurd g
  killer_cases accepting k p r g = absurd g
  killer_cases (adding t) k p r g = absurd g
  killer_cases stopping k p r (g, _, _) = inl g
  killer_cases (joining keys) k p r (g, _, _) = inl g
  killer_cases reaping k p r (g, _, _) = inl g
  killer_cases undefined k p r g = absurd g
  killer_cases exited k p r (inl (g, _)) = inl g
  killer_cases exited k p r (inr g) = inr g

  -- With the lock free and `kill` before it, the main thread has ended.
  over : (m : Main) (p r : Bool) → IsStage m blocked p r → r ≡ false → m ≡ exited
  unfolding IsStage
  over checking p r g e = absurd g
  over accepting p r g e = absurd g
  over (adding t) p r g e = absurd g
  over stopping p r (_, _, g) e = absurd cc
  over (joining keys) p r (_, _, g) e = absurd cc
  over reaping p r (_, _, g) e = absurd cc
  over exited p r g e = refl
  over undefined p r g e = absurd g

  no_killer : (k : Killer) → s.killer ≡ k → ¬ (k ≡ blocked) → ¬ (k ≡ waiting) → ¬ (k ≡ returned) → ⊥
  no_killer k e nb nw nr =
      elim (killer_cases s.main s.killer s.pool_locked s.reaped_locked h.stage) [
        | inl g ↦ nb (sym e ∙ g)
        | inr (inl g) ↦ nw (sym e ∙ g)
        | inr (inr g) ↦ nr (sym e ∙ g)
      ]

  main_over : s.killer ≡ blocked → s.reaped_locked ≡ false → s.main ≡ exited
  main_over e f =
      over s.main s.pool_locked s.reaped_locked
        (subst (λ (k : Killer). IsStage s.main k s.pool_locked s.reaped_locked) e h.stage) f

-- While the server ends, each step of any thread brings it nearer to its end.
pub Step-IsEnding :
    (s u : Server)
    → Step s u
    → IsEnding s
    → IsEnding u × (suc (remaining u.main u.killer u.pool) ≡ remaining s.main s.killer s.pool)
unfolding IsStage IsIdle to_join remaining member IsDistinct
Step-IsEnding s _ (go_on e f) h = absurd (IsStage-at s h checking e)
Step-IsEnding s _ (stop e f) h = absurd (IsStage-at s h checking e)
Step-IsEnding s _ (accept_none e) h = absurd (IsStage-at s h accepting e)
Step-IsEnding s _ (accept_client t e f) h = absurd (IsStage-at s h accepting e)
Step-IsEnding s _ (add t e f) h = absurd (IsStage-at s h (adding t) e)
Step-IsEnding s _ (collect e f) h =
    let (k, p, r) = IsStage-at s h stopping e in
    (
      record {
        idle = h.idle;
        stage = (k, refl, r);
        joinable = λ t inside. joinable_at s h stopping t e inside;
        distinct = IsDistinct-at s h stopping e;
      },
      rw e (omega (arith, length-map-narrow s.pool)),
    )
Step-IsEnding s _ (join t keys e f) h =
    let (k, p, r) = IsStage-at s h (joining (t ∷ keys)) e in
    (
      record {
        idle = λ u. joined-IsIdle s h t u;
        stage = (k, p, r);
        joinable = λ u inside. still_joinable s h t u keys e inside;
        distinct = (IsDistinct-at s h (joining (t ∷ keys)) e).1;
      },
      rw e (omega arith),
    )
Step-IsEnding s _ (join_unknown t keys e f) h =
    let finished : s.client t ≡ ended = joinable_at s h (joining (t ∷ keys)) t e (ground arith) in
    elim f [
      | inl lost ↦ absurd (ended_created (sym finished ∙ lost))
      | inr twice ↦ absurd (ended_once (sym finished ∙ twice))
    ]
Step-IsEnding s _ (all_joined e) h =
    let (k, p, r) = IsStage-at s h (joining []) e in
    (
      record {
        idle = h.idle;
        stage = (k, refl, r);
        joinable = λ u inside. absurd cc;
        distinct = tt;
      },
      rw e refl,
    )
Step-IsEnding s _ (reaped e) h =
    let (k, p, r) = IsStage-at s h reaping e in
    (
      record {
        idle = h.idle;
        stage = inl (k, refl);
        joinable = λ u inside. absurd cc;
        distinct = tt;
      },
      rw (e, k) refl,
    )
Step-IsEnding s _ (answered t e) h = absurd (none_left s h t handling e (λ x. x))
Step-IsEnding s _ (refused t e) h = absurd (none_left s h t handling e (λ x. x))
Step-IsEnding s _ (close_thread t e f) h = absurd (none_left s h t closing e (λ x. x))
Step-IsEnding s _ (leave t e) h = absurd (none_left s h t leaving e (λ x. x))
Step-IsEnding s _ (kill e f) h = absurd (no_killer s h not_called e (λ x. cc) (λ x. cc) (λ x. cc))
Step-IsEnding s _ (set_stop e) h = absurd (no_killer s h locked e (λ x. cc) (λ x. cc) (λ x. cc))
Step-IsEnding s _ (go_ahead e f) h =
    let ended_main = main_over s h e f in
    (
      record {
        idle = h.idle;
        stage = rw ended_main (inr (inl refl));
        joinable = h.joinable;
        distinct = h.distinct;
      },
      rw (ended_main, e) refl,
    )
Step-IsEnding s _ (joined_main e f) h = (
  record {
    idle = h.idle;
    stage = rw f (inr (inr refl));
    joinable = h.joinable;
    distinct = h.distinct;
  },
  rw (f, e) refl,
)

-- Where a client's thread, `kill` and the locks stand, there is a step, until `kill` has returned.
next_step :
    (s : Server) (m : Main) (k : Killer)
    → s.main ≡ m
    → s.killer ≡ k
    → IsEnding s
    → (k ≡ returned) ⊎ ((u : Server) × Step s u)
unfolding IsStage to_join member
next_step s checking k e f h = absurd (IsStage-at s h checking e)
next_step s accepting k e f h = absurd (IsStage-at s h accepting e)
next_step s (adding t) k e f h = absurd (IsStage-at s h (adding t) e)
next_step s stopping k e f h = let (g, p, r) = IsStage-at s h stopping e in inr (_, collect e p)
next_step s (joining []) k e f h = inr (_, all_joined e)
next_step s (joining (t ∷ keys)) k e f h =
    inr (_, join t keys e (joinable_at s h (joining (t ∷ keys)) t e (ground arith)))
next_step s reaping k e f h = inr (_, reaped e)
next_step s undefined k e f h = absurd (IsStage-at s h undefined e)
next_step s exited k e f h = elim (IsStage-at s h exited e) [
  | inl (g, r) ↦ inr (_, go_ahead g r)
  | inr (inl g) ↦ inr (_, joined_main g e)
  | inr (inr g) ↦ inl (sym f ∙ g)
]

-- How long a run is.
unfoldable pub run_length : {s u : Server} → Steps s u → ℕ
run_length here = 0
run_length (later steps step) = suc (run_length steps)

Steps-IsEnding :
    (s u : Server) (run : Steps s u)
    → IsEnding s
    → IsEnding u
      × (run_length run + remaining u.main u.killer u.pool ≡ remaining s.main s.killer s.pool)
unfolding run_length
Steps-IsEnding s _ here h = (h, omega arith)
Steps-IsEnding s _ (later {t = v} {u = w} steps step) h =
    let (ending, count) = Steps-IsEnding s v steps h in
    let (ending', less) = Step-IsEnding v w step ending in (ending', omega (arith, count, less))

-- When `kill` waits, the main thread has seen `shouldStop`, no client's thread is left, and each value
-- that is to be joined, narrowed to an `int`, is there once and is a thread that has ended: whatever
-- steps the threads make, `kill` has returned or there is a step that can be made, and there are as
-- many steps as `remaining` counts, so that `kill` returns.
pub kill-returns :
    (s u : Server) (run : Steps s u)
    → IsEnding s
    → ((u.killer ≡ returned) ⊎ ((v : Server) × Step u v))
      × (run_length run + remaining u.main u.killer u.pool ≡ remaining s.main s.killer s.pool)
kill-returns s u run h =
    let (ending, count) = Steps-IsEnding s u run h in
    (next_step u u.main u.killer refl refl ending, count)
