-- ===== src/Monitor/Tests.antt =====
-- The theorems on the logger and the profiler at concrete calls, with times in whole seconds.
use race_slothy.Common.{
  ℕ, ◌+◌, ◌-◌, ◌≡◌, refl, true, false, some, List, [], ◌∷◌, ◌++◌, bytes_eq, codes, print_nat,
}
use race_slothy.Monitor.{
  err, info, dbg, find, or_default, Clock, Profiler, is_open, begin_profiler_section,
  end_profiler_section, finalize_timings, sum_timings, print_results, other_rows, timing_row,
}
use race_slothy.Monitor.Log.{LogEntry, let_through, lines_for}
use race_slothy.Monitor.Timing.{
  Call, begins, ends, calls, end_profiler_section-begin_profiler_section,
}

abbrev seconds : Clock
seconds = record {
  Time = ℕ;
  Seconds = ℕ;
  epoch = 0;
  elapsed = λ end start. end - start;
  zero_seconds = 0;
  to_text = print_nat;
  plus = λ a b. a + b;
}

abbrev entries : List LogEntry
entries =
    (info, (codes "A", codes "one"))
    ∷ (dbg, (codes "A", codes "two"))
    ∷ (err, (codes "B", codes "three"))
    ∷ []

-- The second message is left out.
two_lines : lines_for info entries ≡ codes "[INFO]\t[A]\tone\n[ERR]\t[B]\tthree\n"
unfolding lines_for let_through
two_lines = refl

abbrev timed : Profiler seconds
timed = record {
  enabled = true;
  sections_open = (codes "a", false) ∷ [];
  sections_start_times = (codes "a", 1) ∷ [];
  timings_log = (codes "a", 2 ∷ []) ∷ [];
}

-- Another section overlaps, and the section is begun a second time.
abbrev between : List (Call seconds)
between = begins 6 (codes "b") ∷ begins 7 (codes "a") ∷ ends 8 (codes "b") ∷ []

closed_a : is_open seconds timed (codes "a") ≡ false
unfolding is_open find or_default bytes_eq
closed_a = refl

differ : bytes_eq (codes "b") (codes "a") ≡ false
unfolding bytes_eq
differ = refl

end_profiler_section-begin_profiler_section_example :
    (is_open seconds
        (end_profiler_section seconds 10
          (codes "a")
          (calls seconds between (begin_profiler_section seconds 5 (codes "a") timed)))
        (codes "a")
      ≡ false)
    × (find
          (end_profiler_section seconds 10 (codes "a") (
            calls seconds between (begin_profiler_section seconds 5 (codes "a") timed))).timings_log
          (codes "a")
        ≡ some (or_default [] (find timed.timings_log (codes "a")) ++ (10 - 5) ∷ []))
end_profiler_section-begin_profiler_section_example =
    end_profiler_section-begin_profiler_section seconds timed (codes "a") between 5 10 refl closed_a
      (tt, (tt, (differ, tt)))

sums : finalize_timings seconds ((codes "a", 2 ∷ 5 ∷ []) ∷ []) ≡ (codes "a", 7) ∷ []
unfolding finalize_timings sum_timings
sums = refl

total_last :
    print_results seconds ((codes "a", 7) ∷ (codes "total", 9) ∷ (codes "unshard", 1) ∷ [])
    ≡ codes "a,7\nunshard,1\ntotal,9\n"
unfolding print_results other_rows timing_row find bytes_eq print_nat
total_last = refl
