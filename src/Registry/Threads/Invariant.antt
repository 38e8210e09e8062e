-- ===== src/Registry/Threads/Invariant.antt =====
-- httpServer.cpp: which threads the pool and the main thread know of.
use mathlib.Core.Path.{subst}
use race_slothy.Common.{
  ℕ, ◌≡◌, refl, sym, ap, ◌∙◌, ◌⊎◌, inl, inr, Bool, Bool-cases, true, false, List, [], ◌∷◌, arith,
  ◌==◌, if◌then◌else◌, member, map,
}
use race_slothy.Registry.Threads.{
  joined, Main, checking, accepting, adding, stopping, joining, reaping, exited, undefined, Killer,
  not_called, locked, blocked, waiting, returned, Client, absent, handling, closing, leaving, ended,
  Server, update, insert, erase, narrow, Step, go_on, stop, accept_none, accept_client, add,
  collect, join, join_unknown, all_joined, reaped, answered, refused, close_thread, leave, kill,
  set_stop, go_ahead, joined_main, Steps, here, later, started,
}
use race_slothy.Registry.Threads.Handles.{
  HasSmallHandles, narrow-small, member-map-narrow, Step-absent,
}

-- A thread that may use the database or the pool.
unfoldable pub IsActive : Client → Type 0
IsActive absent = ⊥
IsActive handling = Unit
IsActive closing = Unit
IsActive leaving = ⊥
IsActive ended = ⊥
IsActive joined = ⊥

-- Where a thread is known that is active.
unfoldable pub IsKnown : Main → List ℕ → ℕ → Type 0
IsKnown checking pool t = member t pool ≡ true
IsKnown accepting pool t = member t pool ≡ true
IsKnown (adding u) pool t = (member t pool ≡ true) ⊎ (t ≡ u)
IsKnown stopping pool t = member t pool ≡ true
IsKnown (joining keys) pool t = member t keys ≡ true
IsKnown reaping pool t = ⊥
IsKnown exited pool t = ⊥
IsKnown undefined pool t = Unit

-- Whether the main thread has the lock of the pool.
abbrev pub holds : Main → Bool
holds (joining keys) = true
holds undefined = true
holds _ = false

-- `kill` returns behind the end of the main thread.
unfoldable pub IsOrdered : Killer → Main → Type 0
IsOrdered returned main = main ≡ exited
IsOrdered _ main = Unit

pub record Inv (s : Server) : Type 0 where
  pub known : (t : ℕ) → IsActive (s.client t) → IsKnown s.main s.pool t
  pub lock : s.pool_locked ≡ holds s.main
  pub ordered : IsOrdered s.killer s.main

member-insert : (t u : ℕ) (pool : List ℕ) → member u pool ≡ true → member u (insert t pool) ≡ true
unfolding insert member
member-insert t u pool h = ground (arith, h)

member-insert_self : (t : ℕ) (pool : List ℕ) → member t (insert t pool) ≡ true
unfolding insert member
member-insert_self t pool = ground arith

member-erase :
    (t u : ℕ) (pool : List ℕ)
    → (t == u) ≡ false
    → member u pool ≡ true
    → member u (erase t pool) ≡ true
unfolding erase member
member-erase t u [] differ h = h
member-erase t u (v ∷ pool) differ h = elim (Bool-cases (t == v)) [
  | inl e ↦ rw e (member-erase t u pool differ (ground (arith, h, differ, e)))
  | inr e ↦ rw e (ground (arith, h, member-erase t u pool differ))
]

moves : (k : Killer) (m m' : Main) → IsOrdered k m → ¬ (m ≡ exited) → IsOrdered k m'
unfolding IsOrdered
moves not_called m m' h e = tt
moves locked m m' h e = tt
moves blocked m m' h e = tt
moves waiting m m' h e = tt
moves returned m m' h e = absurd (e h)

-- A thread that is given another place, at which it is not active unless it was.
IsActive-before :
    (client : ℕ → Client) (t u : ℕ) (c : Client)
    → (IsActive c → IsActive (client t))
    → IsActive (update client t c u)
    → IsActive (client u)
IsActive-before client t u c h a = elim (Bool-cases (t == u)) [
  | inl e ↦
      let same : t ≡ u = ground arith in
      subst (λ (v : ℕ). IsActive (client v)) same
        (h (subst (λ (b : Bool). IsActive (if b then c else client u)) e a))
  | inr e ↦ subst (λ (b : Bool). IsActive (if b then c else client u)) e a
]

-- A thread that is still active is not the one that has stopped.
other_thread :
    (client : ℕ → Client) (t u : ℕ) (c : Client)
    → ¬ IsActive c
    → IsActive (update client t c u)
    → (t == u) ≡ false
other_thread client t u c idle a = elim (Bool-cases (t == u)) [
  | inl e ↦ absurd (idle (subst (λ (b : Bool). IsActive (if b then c else client u)) e a))
  | inr e ↦ e
]

-- What is erased from the pool is no other thread.
erased-IsKnown :
    (m : Main) (pool : List ℕ) (t u : ℕ)
    → (t == u) ≡ false
    → IsKnown m pool u
    → IsKnown m (erase t pool) u
unfolding IsKnown
erased-IsKnown checking pool t u e h = member-erase t u pool e h
erased-IsKnown accepting pool t u e h = member-erase t u pool e h
erased-IsKnown (adding v) pool t u e (inl h) = inl (member-erase t u pool e h)
erased-IsKnown (adding v) pool t u e (inr h) = inr h
erased-IsKnown stopping pool t u e h = member-erase t u pool e h
erased-IsKnown (joining keys) pool t u e h = h
erased-IsKnown reaping pool t u e h = h
erased-IsKnown exited pool t u e h = h
erased-IsKnown undefined pool t u e h = h

active_created : (c : Client) → IsActive c → ¬ (c ≡ absent)
unfolding IsActive
active_created c a e = subst IsActive e a

module _ (s : Server) (inv : Inv s) where
  IsKnown-at : (m : Main) (t : ℕ) → s.main ≡ m → IsActive (s.client t) → IsKnown m s.pool t
  IsKnown-at m t e a = subst (λ (n : Main). IsKnown n s.pool t) e (inv.known t a)

  main_moves : (m m' : Main) → s.main ≡ m → ¬ (m ≡ exited) → IsOrdered s.killer m'
  main_moves m m' e h = moves s.killer s.main m' inv.ordered (λ x. h (sym e ∙ x))

  added : (t u : ℕ) → s.main ≡ adding t → IsActive (s.client u) → member u (insert t s.pool) ≡ true
  unfolding IsKnown
  added t u e a = elim (IsKnown-at (adding t) u e a) [
    | inl h ↦ member-insert t u s.pool h
    | inr h ↦ rw h (member-insert_self t s.pool)
  ]

  accepted :
      (t u : ℕ)
      → s.main ≡ accepting
      → IsActive (update s.client t handling u)
      → (member u s.pool ≡ true) ⊎ (u ≡ t)
  unfolding IsKnown
  accepted t u e a = elim (Bool-cases (t == u)) [
    | inl h ↦ inr (ground arith)
    | inr h ↦ inl (
        IsKnown-at accepting u e
          (subst (λ (b : Bool). IsActive (if b then handling else s.client u)) h a))
  ]

  still_joining :
      (t u : ℕ) (keys : List ℕ)
      → s.main ≡ joining (t ∷ keys)
      → s.client t ≡ ended
      → IsActive (s.client u)
      → member u keys ≡ true
  unfolding IsKnown IsActive member
  still_joining t u keys e finished a = elim (Bool-cases (u == t)) [
    | inl h ↦
        let same : u ≡ t = ground arith in absurd (subst IsActive (ap s.client same ∙ finished) a)
    | inr h ↦ ground (arith, IsKnown-at (joining (t ∷ keys)) u e a, h)
  ]

  collected :
      (u : ℕ)
      → HasSmallHandles s
      → s.main ≡ stopping
      → IsActive (s.client u)
      → member u (map narrow s.pool) ≡ true
  unfolding IsKnown
  collected u small e a =
      let fits = narrow-small u (small u (active_created (s.client u) a)) in
      member-map-narrow u s.pool fits (IsKnown-at stopping u e a)

  none_active : (u : ℕ) → s.main ≡ joining [] → IsActive (s.client u) → ⊥
  unfolding IsKnown member
  none_active u e a = ground (arith, IsKnown-at (joining []) u e a)

  stays :
      (t u : ℕ) (c : Client)
      → (IsActive c → IsActive (s.client t))
      → IsActive (update s.client t c u)
      → IsKnown s.main s.pool u
  stays t u c h a = inv.known u (IsActive-before s.client t u c h a)

-- Each step of the server keeps the invariant, if the handles before it are small.
pub Step-Inv : (s t : Server) → Step s t → HasSmallHandles s → Inv s → Inv t
unfolding IsKnown IsActive IsOrdered
Step-Inv s _ (go_on e f) small inv = record {
  known = λ u a. IsKnown-at s inv checking u e a;
  lock = inv.lock ∙ ap holds e;
  ordered = main_moves s inv checking accepting e (λ x. cc);
}
Step-Inv s _ (stop e f) small inv = record {
  known = λ u a. IsKnown-at s inv checking u e a;
  lock = inv.lock ∙ ap holds e;
  ordered = main_moves s inv checking stopping e (λ x. cc);
}
Step-Inv s _ (accept_none e) small inv = record {
  known = λ u a. IsKnown-at s inv accepting u e a;
  lock = inv.lock ∙ ap holds e;
  ordered = main_moves s inv accepting checking e (λ x. cc);
}
Step-Inv s _ (accept_client t e f) small inv = record {
  known = λ u a. accepted s inv t u e a;
  lock = inv.lock ∙ ap holds e;
  ordered = main_moves s inv accepting (adding t) e (λ x. cc);
}
Step-Inv s _ (add t e f) small inv = record {
  known = λ u a. added s inv t u e a;
  lock = inv.lock ∙ ap holds e;
  ordered = main_moves s inv (adding t) checking e (λ x. cc);
}
Step-Inv s _ (collect e f) small inv = record {
  known = λ u a. collected s inv u small e a;
  lock = refl;
  ordered = main_moves s inv stopping (joining (map narrow s.pool)) e (λ x. cc);
}
Step-Inv s _ (join t keys e f) small inv = record {
  known = λ u a.
      still_joining s inv t u keys e f (IsActive-before s.client t u joined (λ x. absurd x) a);
  lock = inv.lock ∙ ap holds e;
  ordered = main_moves s inv (joining (t ∷ keys)) (joining keys) e (λ x. cc);
}
Step-Inv s _ (join_unknown t keys e f) small inv = record {
  known = λ u a. tt;
  lock = inv.lock ∙ ap holds e;
  ordered = main_moves s inv (joining (t ∷ keys)) undefined e (λ x. cc);
}
Step-Inv s _ (all_joined e) small inv = record {
  known = λ u a. none_active s inv u e a;
  lock = refl;
  ordered = main_moves s inv (joining []) reaping e (λ x. cc);
}
Step-Inv s _ (reaped e) small inv = record {
  known = λ u a. IsKnown-at s inv reaping u e a;
  lock = inv.lock ∙ ap holds e;
  ordered = main_moves s inv reaping exited e (λ x. cc);
}
Step-Inv s _ (answered t e) small inv = record {
  known = λ u a. stays s inv t u closing (λ x. subst IsActive (sym e) tt) a;
  lock = inv.lock;
  ordered = inv.ordered;
}
Step-Inv s _ (refused t e) small inv = record {
  known = λ u a. stays s inv t u ended (λ x. absurd x) a;
  lock = inv.lock;
  ordered = inv.ordered;
}
Step-Inv s _ (close_thread t e f) small inv = record {
  known = λ u a.
      erased-IsKnown s.main s.pool t u (other_thread s.client t u leaving (λ x. x) a)
        (stays s inv t u leaving (λ x. absurd x) a);
  lock = inv.lock;
  ordered = inv.ordered;
}
Step-Inv s _ (leave t e) small inv = record {
  known = λ u a. stays s inv t u ended (λ x. absurd x) a;
  lock = inv.lock;
  ordered = inv.ordered;
}
Step-Inv s _ (kill e f) small inv = record { known = inv.known; lock = inv.lock; ordered = tt }
Step-Inv s _ (set_stop e) small inv = record { known = inv.known; lock = inv.lock; ordered = tt }
Step-Inv s _ (go_ahead e f) small inv = record { known = inv.known; lock = inv.lock; ordered = tt }
Step-Inv s _ (joined_main e f) small inv = record {
  known = inv.known;
  lock = inv.lock;
  ordered = f;
}

started-Inv : Inv started
unfolding IsActive IsOrdered
started-Inv = record { known = λ t a. absurd a; lock = refl; ordered = tt }

pub Steps-Inv : (s : Server) → Steps started s → HasSmallHandles s → Inv s
Steps-Inv _ here small = started-Inv
Steps-Inv _ (later {t} {u} steps step) small =
    let before : HasSmallHandles t = λ v there. small v (λ e. there (Step-absent t u v step e)) in
    Step-Inv t u step before (Steps-Inv t steps before)
