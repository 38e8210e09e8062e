-- ===== src/Race/Await/Passes.antt =====
-- RaceInterface.cpp: what `awaitMessageWithHeader` makes of a queue each time that it is woken.
use race_slothy.Common.{
  ℕ, suc, ◌+◌, ◌≡◌, refl, sym, ap, ◌∙◌, Option, none, some, List, [], ◌∷◌, ◌++◌, append_assoc,
  arith, Bytes, bytes_eq_refl, length, length-append, get_elem?, drop, All-append,
}
use race_slothy.Race.{JsonLib}
use race_slothy.Race.Await.{
  incomplete, complete, scanned, fault, erase_at, entry_of, scan_queue, pass,
}
use race_slothy.Race.Await.Scan.{
  AllOther, get-append_here, erase-append_here, scan_others, scan_end, scan_rest,
}

module _ (lib : JsonLib) (parse : Bytes → Option lib.Json) (header : Bytes) where
  matched :
      (el : Bytes) (v : lib.Json) (before after : List Bytes) (f : ℕ) (r : Option lib.Json)
      → entry_of lib parse el ≡ complete header v
      → scan_queue lib parse (suc f) (length before) header (before ++ (el ∷ after)) r
        ≡ scan_queue lib parse f (length before + 1) header (before ++ after) (some v)
  unfolding scan_queue
  matched el v before after f r is =
      rw (scan_queue, get-append_here before el after)
        (rw (is, bytes_eq_refl header) (rw (erase-append_here before el after) refl))

  after_match :
      (before after : List Bytes) (v : lib.Json)
      → AllOther lib parse header (drop 1 after)
      → scan_queue lib parse
          (suc (length after))
          (length before + 1)
          header
          (before ++ after)
          (some v)
        ≡ scanned (before ++ after) (some v)
  after_match before [] v others =
      scan_end lib parse header (before ++ []) 0 (length before + 1) (some v)
        (omega (arith, length-append before []))
  after_match before (s ∷ rest) v others =
      let place : length before + 1 ≡ length (before ++ s ∷ []) =
        omega (arith, length-append before (s ∷ [])) in
      let whole : before ++ (s ∷ rest) ≡ (before ++ s ∷ []) ++ rest = simp append_assoc in
      let fuel : suc (suc (length rest)) ≡ length rest + suc 1 = omega arith in
      rw (place, whole, fuel) (scan_rest lib parse header rest (before ++ s ∷ []) 1 (some v) others)

  to_entry :
      (before rest : List Bytes) (f : ℕ) (r : Option lib.Json)
      → AllOther lib parse header before
      → scan_queue lib parse (length before + f) 0 header (before ++ rest) r
        ≡ scan_queue lib parse f (length before) header (before ++ rest) r
  to_entry before rest f r h =
      let place : 0 + length before ≡ length before = omega arith in
      scan_others lib parse header before [] rest f r h ∙ rw place refl

  -- A queue of entries that are no JSON or complete with another name, and one complete response
  -- with the name: the pass returns it and removes it, and keeps all other entries in their order. The
  -- entry behind it is passed over and may be any.
  pub pass-found :
      (before after : List Bytes) (el : Bytes) (v : lib.Json)
      → AllOther lib parse header before
      → entry_of lib parse el ≡ complete header v
      → AllOther lib parse header (drop 1 after)
      → pass lib parse header (before ++ (el ∷ after)) ≡ scanned (before ++ after) (some v)
  unfolding pass
  pass-found before after el v others is others' =
      let fuel : suc (length (before ++ (el ∷ after))) ≡ length before + suc (suc (length after)) =
        omega (arith, length-append before (el ∷ after)) in
      rw (pass, fuel)
        (to_entry before (el ∷ after) (suc (suc (length after))) none others
          ∙ matched el v before after (suc (length after)) none is
          ∙ after_match before after v others')

  step_back :
      (el : Bytes) (n : ℕ) (queue : List Bytes) (f : ℕ) (r : Option lib.Json)
      → get_elem? queue (suc n) ≡ some el
      → entry_of lib parse el ≡ incomplete
      → scan_queue lib parse (suc f) (suc n) header queue r
        ≡ scan_queue lib parse f (suc n) header (erase_at n queue) r
  unfolding scan_queue
  step_back el n queue f r here is = rw (scan_queue, here) (rw is refl)

  -- An incomplete entry behind another one: the pass removes the entry in front of it, which is no
  -- answer to this request but may be one to a later request, and keeps the incomplete one.
  pub pass-incomplete :
      (before after : List Bytes) (front el : Bytes)
      → AllOther lib parse header before
      → AllOther lib parse header (front ∷ [])
      → entry_of lib parse el ≡ incomplete
      → AllOther lib parse header after
      → pass lib parse header (before ++ (front ∷ el ∷ after))
        ≡ scanned (before ++ (el ∷ after)) none
  unfolding pass
  pass-incomplete before after front el others other is others' =
      let read : List Bytes = before ++ front ∷ [] in
      let queue : List Bytes = before ++ (front ∷ el ∷ after) in
      let whole : queue ≡ read ++ (el ∷ after) = simp append_assoc in
      let size : length read ≡ suc (length before) =
        omega (arith, length-append before (front ∷ [])) in
      let fuel : suc (length queue) ≡ length read + suc (length after + suc 0) =
        omega
          (arith, length-append before (front ∷ el ∷ after), length-append before (front ∷ [])) in
      let kept : List Bytes = before ++ (el ∷ after) in
      let here : get_elem? queue (suc (length before)) ≡ some el =
        ap (λ (q : List Bytes). get_elem? q (suc (length before))) whole
        ∙ ap (λ (k : ℕ). get_elem? (read ++ (el ∷ after)) k) (sym size)
        ∙ get-append_here read el after in
      let place : suc (length before) ≡ length (before ++ el ∷ []) =
        omega (arith, length-append before (el ∷ [])) in
      let rest : kept ≡ (before ++ el ∷ []) ++ after = simp append_assoc in
      rw (pass, fuel)
        (ap
            (λ (q : List Bytes).
              scan_queue lib parse (length read + suc (length after + suc 0)) 0 header q none)
            whole
          ∙ to_entry read (el ∷ after) (suc (length after + suc 0)) none
              (All-append _ before (front ∷ []) others other)
          ∙ ap
              (λ (q : List Bytes).
                scan_queue lib parse (suc (length after + suc 0)) (length read) header q none)
              (sym whole)
          ∙ ap (λ (k : ℕ). scan_queue lib parse (suc (length after + suc 0)) k header queue none)
              size
          ∙ step_back el (length before) queue (length after + suc 0) none here is
          ∙ ap
              (λ (q : List Bytes).
                scan_queue lib parse (length after + suc 0) (suc (length before)) header q none)
              (erase-append_here before front (el ∷ after))
          ∙ rw (place, rest) (scan_rest lib parse header after (before ++ el ∷ []) 0 none others'))

  -- An incomplete entry at the head: the pass erases what stands in front of the queue.
  pub pass-fault :
      (el : Bytes) (after : List Bytes)
      → entry_of lib parse el ≡ incomplete
      → pass lib parse header (el ∷ after) ≡ fault
  unfolding pass scan_queue
  pass-fault el after is = rw (pass, scan_queue, is) refl
