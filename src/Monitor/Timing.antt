-- ===== src/Monitor/Timing.antt =====
-- profiler.cpp: what is logged for a section.
use mathlib.Core.Bool.{false≢true}
use race_slothy.Common.{
  ◌≡◌, refl, sym, ◌∙◌, inl, inr, Bool-cases, true, false, Option, some, List, [], ◌∷◌, ◌++◌, All,
  Bytes, bytes_eq, bytes_eq_refl, bytes_eq_sound,
}
use race_slothy.Monitor.{
  find, assign, or_default, Clock, Profiler, is_open, begin_profiler_section, end_profiler_section,
}

module _ {V : Type 0} where
  find-assign :
      (fields : List (Bytes × V)) (key : Bytes) (v : V) → find (assign key v fields) key ≡ some v
  unfolding find assign
  find-assign [] key v = rw (bytes_eq_refl key) refl
  find-assign ((k, old) ∷ fields) key v = elim (Bool-cases (bytes_eq k key)) [
    | inl e ↦ rw (e, find, e) refl
    | inr e ↦ rw (e, find, e) (find-assign fields key v)
  ]

  find-assign_other :
      (fields : List (Bytes × V)) (key other : Bytes) (v : V)
      → bytes_eq key other ≡ false
      → find (assign key v fields) other ≡ find fields other
  unfolding find assign
  find-assign_other [] key other v h = rw h refl
  find-assign_other ((k, old) ∷ fields) key other v h = elim (Bool-cases (bytes_eq k key)) [
    | inl e ↦
        let same : k ≡ key = bytes_eq_sound k key e in
        let differ : bytes_eq k other ≡ false = rw same h in rw (e, find, differ) refl
    | inr e ↦ rw (e, find, find-assign_other fields key other v h) refl
  ]

module _ (c : Clock) where
  pub data Call : Type 0 where
    begins : c.Time → Bytes → Call
    ends : c.Time → Bytes → Call

  unfoldable pub call : Call → Profiler c → Profiler c
  call (begins now name) p = begin_profiler_section c now name p
  call (ends now name) p = end_profiler_section c now name p

  unfoldable pub calls : List Call → Profiler c → Profiler c
  calls [] p = p
  calls (e ∷ es) p = calls es (call e p)

  -- A call that does not end the section.
  abbrev pub IsBetween : Bytes → Call → Type 0
  IsBetween name (begins now other) = Unit
  IsBetween name (ends now other) = bytes_eq other name ≡ false

  -- It is enabled, and the section has been open since a time and has these timings.
  abbrev IsRunning : Bytes → c.Time → Option (List c.Seconds) → Profiler c → Type 0
  IsRunning name start logged p =
      (p.enabled ≡ true)
      × (find p.sections_open name ≡ some true)
      × (find p.sections_start_times name ≡ some start)
      × (find p.timings_log name ≡ logged)

  begin_open :
      (p : Profiler c) (now : c.Time) (other : Bytes)
      → is_open c p other ≡ true
      → begin_profiler_section c now other p ≡ p
  unfolding begin_profiler_section
  begin_open p now other o = elim (Bool-cases p.enabled) [
    | inl e ↦ simp (begin_profiler_section, e, o)
    | inr e ↦ simp (begin_profiler_section, e)
  ]

  name_differs :
      (p : Profiler c) (name other : Bytes)
      → find p.sections_open name ≡ some true
      → is_open c p other ≡ false
      → bytes_eq other name ≡ false
  unfolding is_open or_default
  name_differs p name other is_true o = elim (Bool-cases (bytes_eq other name)) [
    | inr e ↦ e
    | inl e ↦
        let same : other ≡ name = bytes_eq_sound other name e in
        let clash : is_open c p other ≡ true = rw (same, is_open, is_true) refl in
        absurd (false≢true (sym o ∙ clash))
  ]

  begin-IsRunning :
      (p : Profiler c) (name other : Bytes) (start now : c.Time) (logged : Option (List c.Seconds))
      → IsRunning name start logged p
      → IsRunning name start logged (begin_profiler_section c now other p)
  unfolding begin_profiler_section is_open find
  begin-IsRunning p name other start now logged (enabled, is_true, started, same) =
      elim (Bool-cases (is_open c p other)) [
        | inl o ↦ rw (begin_open p now other o) (enabled, is_true, started, same)
        | inr o ↦
            let differs = name_differs p name other is_true o in
            rw (begin_profiler_section, enabled, o)
              (
                refl,
                find-assign_other p.sections_open other name true differs ∙ is_true,
                find-assign_other p.sections_start_times other name now differs ∙ started,
                same,
              )
      ]

  end-IsRunning :
      (p : Profiler c) (name other : Bytes) (start now : c.Time) (logged : Option (List c.Seconds))
      → bytes_eq other name ≡ false
      → IsRunning name start logged p
      → IsRunning name start logged (end_profiler_section c now other p)
  unfolding end_profiler_section is_open find
  end-IsRunning p name other start now logged differs (enabled, is_true, started, same) =
      elim (Bool-cases (is_open c p other)) [
        | inl o ↦
            rw (end_profiler_section, enabled, o)
              (
                refl,
                find-assign_other p.sections_open other name false differs ∙ is_true,
                started,
                find-assign_other p.timings_log other name _ differs ∙ same,
              )
        | inr o ↦ rw (end_profiler_section, enabled, o) (refl, is_true, started, same)
      ]

  calls-IsRunning :
      (es : List Call) (p : Profiler c) (name : Bytes) (start : c.Time)
      (logged : Option (List c.Seconds))
      → All (IsBetween name) es
      → IsRunning name start logged p
      → IsRunning name start logged (calls es p)
  unfolding calls call
  calls-IsRunning [] p name start logged h r = r
  calls-IsRunning (begins now other ∷ es) p name start logged (here, h) r =
      calls-IsRunning es (begin_profiler_section c now other p) name start logged h
        (begin-IsRunning p name other start now logged r)
  calls-IsRunning (ends now other ∷ es) p name start logged (here, h) r =
      calls-IsRunning es (end_profiler_section c now other p) name start logged h
        (end-IsRunning p name other start now logged here r)

  opened-IsRunning :
      (p : Profiler c) (name : Bytes) (start : c.Time)
      → p.enabled ≡ true
      → is_open c p name ≡ false
      → IsRunning name start (find p.timings_log name) (begin_profiler_section c start name p)
  unfolding begin_profiler_section is_open find
  opened-IsRunning p name start enabled o =
      rw (begin_profiler_section, enabled, o)
        (
          refl,
          find-assign p.sections_open name true,
          find-assign p.sections_start_times name start,
          refl,
        )

  logged_one :
      (p : Profiler c) (name : Bytes) (start now : c.Time) (logged : Option (List c.Seconds))
      → IsRunning name start logged p
      → (is_open c (end_profiler_section c now name p) name ≡ false)
        × (find (end_profiler_section c now name p).timings_log name
            ≡ some (or_default [] logged ++ c.elapsed now start ∷ []))
  unfolding end_profiler_section is_open or_default
  logged_one p name start now logged (enabled, is_true, started, same) =
      let o : is_open c p name ≡ true = rw (is_open, is_true) refl in
      (
        rw (end_profiler_section, enabled, o, is_open, find-assign p.sections_open name false) refl,
        rw (end_profiler_section, enabled, o)
            (find-assign p.timings_log name _ ∙ rw (same, started) refl),
      )

  -- On an enabled profiler a section is begun that is not open, and later ended. In between any other
  -- sections are begun and ended, in any order and overlapping, and this one may be begun again but
  -- is not ended. Then exactly one timing is added to those of the section, the time from its first
  -- begin to its end, and the section is not open.
  pub end_profiler_section-begin_profiler_section :
      (p : Profiler c) (name : Bytes) (es : List Call) (start now : c.Time)
      → p.enabled ≡ true
      → is_open c p name ≡ false
      → All (IsBetween name) es
      → (is_open c
            (end_profiler_section c now name (calls es (begin_profiler_section c start name p)))
            name
          ≡ false)
        × (find
              (end_profiler_section c now name
                (calls es (begin_profiler_section c start name p))).timings_log
              name
            ≡ some (or_default [] (find p.timings_log name) ++ c.elapsed now start ∷ []))
  end_profiler_section-begin_profiler_section p name es start now enabled o between =
      logged_one (calls es (begin_profiler_section c start name p)) name start now
        (find p.timings_log name)
        (calls-IsRunning es (begin_profiler_section c start name p) name start
          (find p.timings_log name) between (opened-IsRunning p name start enabled o))
