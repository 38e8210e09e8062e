-- ===== src/Race/Await/Ends.antt =====
-- RaceInterface.cpp: a pass over the queue ends, and what it returns is an answer to the request.
use mathlib.Core.Path.{subst}
use race_slothy.Common.{
  ℕ, zero, suc, ◌+◌, ◌-◌, ◌<◌, ◌≡◌, refl, sym, ap, ◌∙◌, ◌⊎◌, inl, inr, Bool-cases, true, Option,
  none, some, List, arith, Bytes, bytes_eq, bytes_eq_sound, length, get_elem?,
}
use race_slothy.Registry.Http.{c_str}
use race_slothy.Race.{JsonLib}
use race_slothy.Race.Await.{
  Entry, invalid, incomplete, unnamed, complete, Scanned, scanned, threw, fault, looping, erase_at,
  has_members, entry_name, entry_of, scan_queue, pass,
}
use race_slothy.Race.Await.Scan.{get-lt, length-erase_at}

abbrev IsOpen : {J : Type 0} → Entry J → Type 0
IsOpen invalid = Unit
IsOpen incomplete = Unit
IsOpen unnamed = Unit
IsOpen (complete name v) = ⊥

kinds_differ :
    {J : Type 0} (k : Entry J) (name : Bytes) (v : J) → IsOpen k → ¬ (k ≡ complete name v)
kinds_differ k name v h e = subst IsOpen e h

named_parts :
    {J : Type 0} (w v : J) (n : Option Bytes) (name : Bytes)
    → (elim n as (λ x. Entry J) [ none ↦ unnamed | some m ↦ complete m w ]) ≡ complete name v
    → (n ≡ some name) × (w ≡ v)
named_parts w v none name e = absurd (kinds_differ unnamed name v tt e)
named_parts w v (some m) name e = (cc, cc)

module _ (lib : JsonLib) (parse : Bytes → Option lib.Json) (header : Bytes) where
  -- A text that stands for a complete answer with the name.
  abbrev pub Answers : lib.Json → Type 0
  Answers v = (el : Bytes) × (entry_of lib parse el ≡ complete header v)

  -- What one round of the loop comes to.
  abbrev Round : ℕ → ℕ → List Bytes → Option lib.Json → Type 0
  Round f i queue r =
      (scan_queue lib parse (suc f) i header queue r ≡ scanned queue r)
      ⊎ (scan_queue lib parse (suc f) i header queue r ≡ threw)
      ⊎ (scan_queue lib parse (suc f) i header queue r ≡ fault)
      ⊎ ((i' : ℕ) × (queue' : List Bytes) × (r' : Option lib.Json) × (scan_queue lib parse (suc f) i
              header queue r
            ≡ scan_queue lib parse f i' header queue' r')
          × (length queue' - i' < length queue - i)
          × ((r' ≡ r) ⊎ ((v : lib.Json) × (r' ≡ some v) × Answers v)))

  entry_of-Round :
      (kind : Entry lib.Json) (el : Bytes) (f i : ℕ) (queue : List Bytes) (r : Option lib.Json)
      → get_elem? queue i ≡ some el
      → entry_of lib parse el ≡ kind
      → Round f i queue r
  unfolding scan_queue
  entry_of-Round invalid el f i queue r here is = inr (
      inr (
        inr (
          i + 1,
          queue,
          r,
          rw (scan_queue, here) (rw is refl),
          omega (arith, get-lt queue i el here),
          inl refl,
        )))
  entry_of-Round incomplete el f zero queue r here is =
      inr (inr (inl (rw (scan_queue, here) (rw is refl))))
  entry_of-Round incomplete el f (suc j) queue r here is = inr (
      inr (
        inr (
          suc j,
          erase_at j queue,
          r,
          rw (scan_queue, here) (rw is refl),
          omega (
            arith,
            get-lt queue (suc j) el here,
            length-erase_at j queue (omega (arith, get-lt queue (suc j) el here)),
          ),
          inl refl,
        )))
  entry_of-Round unnamed el f i queue r here is = inr (inl (rw (scan_queue, here) (rw is refl)))
  entry_of-Round (complete name v) el f i queue r here is =
      elim (Bool-cases (bytes_eq name header)) [
        | inr e ↦ inr (
            inr (
              inr (
                i + 1,
                queue,
                r,
                rw (scan_queue, here) (rw (is, e) refl),
                omega (arith, get-lt queue i el here),
                inl refl,
              )))
        | inl e ↦
            let same : complete name v ≡ complete header v =
              ap (λ (n : Bytes). complete n v) (bytes_eq_sound name header e) in
            inr (
              inr (
                inr (
                  i + 1,
                  erase_at i queue,
                  some v,
                  rw (scan_queue, here) (rw (is, e) refl),
                  omega (
                    arith,
                    get-lt queue i el here,
                    length-erase_at i queue (get-lt queue i el here),
                  ),
                  inr (v, refl, (el, is ∙ same)),
                )))
      ]

  round :
      (f i : ℕ) (queue : List Bytes) (r : Option lib.Json) (o : Option Bytes)
      → get_elem? queue i ≡ o
      → Round f i queue r
  unfolding scan_queue
  round f i queue r none e = inl (rw (scan_queue, e) refl)
  round f i queue r (some el) e = entry_of-Round (entry_of lib parse el) el f i queue r e refl

  -- The parts of a complete entry.
  complete_parts :
      (el name : Bytes) (v : lib.Json) (parsed : Option lib.Json)
      → parse (c_str el) ≡ parsed
      → entry_of lib parse el ≡ complete name v
      → (parse (c_str el) ≡ some v)
        × (has_members lib parse v ≡ true)
        × (entry_name lib parse v ≡ some name)
  unfolding entry_of
  complete_parts el name v none e is =
      let found : entry_of lib parse el ≡ invalid = rw (entry_of, e) refl in
      absurd (kinds_differ invalid name v tt (sym found ∙ is))
  complete_parts el name v (some w) e is = elim (Bool-cases (has_members lib parse w)) [
    | inr less ↦
        let found : entry_of lib parse el ≡ incomplete = rw (entry_of, e) (rw less refl) in
        absurd (kinds_differ incomplete name v tt (sym found ∙ is))
    | inl all ↦
        let found : entry_of lib parse el
            ≡ (elim (entry_name lib parse w) [ none ↦ unnamed | some m ↦ complete m w ]) =
          rw (entry_of, e) (rw all refl) in
        let (called, same) = named_parts w v (entry_name lib parse w) name (sym found ∙ is) in
        (
          e ∙ ap (λ (u : lib.Json). some u) same,
          ap (has_members lib parse) (sym same) ∙ all,
          ap (entry_name lib parse) (sym same) ∙ called,
        )
  ]

  IsAnswer : Option lib.Json → Type 0
  IsAnswer none = Unit
  IsAnswer (some v) = Answers v

  next-IsAnswer :
      (r r' : Option lib.Json)
      → (r' ≡ r) ⊎ ((v : lib.Json) × (r' ≡ some v) × Answers v)
      → IsAnswer r
      → IsAnswer r'
  unfolding IsAnswer
  next-IsAnswer r r' (inl same) h = subst IsAnswer (sym same) h
  next-IsAnswer r r' (inr (v, is, answers)) h = subst IsAnswer (sym is) answers

  -- How a scan ends: not for want of fuel, and with an answer if with a response.
  Ends : Scanned lib.Json → Type 0
  Ends (scanned queue r) = IsAnswer r
  Ends threw = Unit
  Ends fault = Unit
  Ends looping = ⊥

  scan-Ends :
      (f i : ℕ) (queue : List Bytes) (r : Option lib.Json)
      → length queue - i < f
      → IsAnswer r
      → Ends (scan_queue lib parse f i header queue r)
  unfolding Ends
  scan-Ends zero i queue r h answer = absurd (omega arith)
  scan-Ends (suc f) i queue r h answer = elim (round f i queue r (get_elem? queue i) refl) [
    | inl e ↦ subst Ends (sym e) answer
    | inr (inl e) ↦ subst Ends (sym e) tt
    | inr (inr (inl e)) ↦ subst Ends (sym e) tt
    | inr (inr (inr (i', queue', r', e, less, kept))) ↦
        subst Ends (sym e) (scan-Ends f i' queue' r' (omega arith) (next-IsAnswer r r' kept answer))
  ]

  -- A pass over any queue ends: the fuel is enough.
  pub pass-ne-looping : (queue : List Bytes) → ¬ (pass lib parse header queue ≡ looping)
  unfolding pass Ends IsAnswer
  pass-ne-looping queue e =
      subst Ends e (scan-Ends (suc (length queue)) 0 queue none (omega arith) tt)

  -- If a pass over a queue gives a response, it is the JSON of a text and has all five members, and
  -- its name is a text, the one that was asked for.
  pub pass-members :
      (queue queue' : List Bytes) (v : lib.Json)
      → pass lib parse header queue ≡ scanned queue' (some v)
      → ((el : Bytes) × (parse (c_str el) ≡ some v))
        × (has_members lib parse v ≡ true)
        × (entry_name lib parse v ≡ some header)
  unfolding pass Ends IsAnswer
  pass-members queue queue' v e =
      let ends = scan-Ends (suc (length queue)) 0 queue none (omega arith) tt in
      let (el, is) = subst Ends e ends in
      let (parsed, members, name) = complete_parts el header v (parse (c_str el)) refl is in
      ((el, parsed), members, name)
