-- ===== src/Registry/Threads/Handles.antt =====
-- httpServer.cpp: the handles of threads, which `run` narrows to an `int`.
use mathlib.Core.Path.{subst}
use race_slothy.Common.{
  ℕ, ◌≡◌, refl, inl, inr, Bool, Bool-cases, true, List, [], ◌∷◌, arith, ◌==◌, if◌then◌else◌, member,
  map, ◌<◌, ◌^◌,
}
use race_slothy.Registry.Threads.{
  joined, Client, absent, handling, closing, leaving, ended, Server, update, narrow, Step, go_on,
  stop, accept_none, accept_client, add, collect, join, join_unknown, all_joined, reaped, answered,
  refused, close_thread, leave, kill, set_stop, go_ahead, joined_main,
}

-- The handles of the threads that were created are small enough to be kept as an `int`.
abbrev pub HasSmallHandles : Server → Type 0
HasSmallHandles s = (t : ℕ) → ¬ (s.client t ≡ absent) → t < 2 ^ 31

pub narrow-small : (t : ℕ) → t < 2 ^ 31 → narrow t ≡ t
unfolding narrow
narrow-small t h = ground arith

pub member-map-narrow :
    (u : ℕ) (pool : List ℕ)
    → narrow u ≡ u
    → member u pool ≡ true
    → member u (map narrow pool) ≡ true
unfolding member
member-map-narrow u [] same h = h
member-map-narrow u (v ∷ pool) same h = elim (Bool-cases (u == v)) [
  | inl e ↦
      let is : u ≡ v = ground arith in
      let first : (u == narrow v) ≡ true =
        subst (λ (w : ℕ). (u == narrow w) ≡ true) is (rw same (ground arith)) in
      rw first refl
  | inr e ↦ ground (arith, member-map-narrow u pool same (ground (arith, h, e)))
]

-- A thread that was created stays created.
created :
    (client : ℕ → Client) (t u : ℕ) (c : Client)
    → ¬ (c ≡ absent)
    → update client t c u ≡ absent
    → client u ≡ absent
created client t u c differ e = elim (Bool-cases (t == u)) [
  | inl same ↦ absurd (differ (subst (λ (b : Bool). (if b then c else client u) ≡ absent) same e))
  | inr other ↦ subst (λ (b : Bool). (if b then c else client u) ≡ absent) other e
]

pub Step-absent : (s u : Server) (t : ℕ) → Step s u → u.client t ≡ absent → s.client t ≡ absent
Step-absent s _ t (go_on e f) h = h
Step-absent s _ t (stop e f) h = h
Step-absent s _ t (accept_none e) h = h
Step-absent s _ t (accept_client v e f) h = created s.client v t handling (λ x. cc) h
Step-absent s _ t (add v e f) h = h
Step-absent s _ t (collect e f) h = h
Step-absent s _ t (join v keys e f) h = created s.client v t joined (λ x. cc) h
Step-absent s _ t (join_unknown v keys e f) h = h
Step-absent s _ t (all_joined e) h = h
Step-absent s _ t (reaped e) h = h
Step-absent s _ t (answered v e) h = created s.client v t closing (λ x. cc) h
Step-absent s _ t (refused v e) h = created s.client v t ended (λ x. cc) h
Step-absent s _ t (close_thread v e f) h = created s.client v t leaving (λ x. cc) h
Step-absent s _ t (leave v e) h = created s.client v t ended (λ x. cc) h
Step-absent s _ t (kill e f) h = h
Step-absent s _ t (set_stop e) h = h
Step-absent s _ t (go_ahead e f) h = h
Step-absent s _ t (joined_main e f) h = h
