-- ===== src/Race/Await/Scan.antt =====
-- RaceInterface.cpp: what one pass over the queue finds and removes.
use race_slothy.Common.{
  ℕ, zero, suc, ◌+◌, ◌≤◌, ◌<◌, ◌≡◌, refl, sym, ap, ◌∙◌, false, Option, none, some, List, [], ◌∷◌,
  ◌++◌, append_assoc, append-nil, arith, Bytes, bytes_eq, length, length-append, get_elem?, All,
}
use race_slothy.Race.{JsonLib}
use race_slothy.Race.Await.{
  Entry, invalid, incomplete, unnamed, complete, scanned, erase_at, entry_of, scan_queue,
}

module _ {A : Type 0} where
  pub get-append_here :
      (p : List A) (x : A) (q : List A) → get_elem? (p ++ (x ∷ q)) (length p) ≡ some x
  get-append_here [] x q = refl
  get-append_here (y ∷ p) x q = get-append_here p x q

  pub get_behind : (p : List A) (n : ℕ) → length p ≤ n → get_elem? p n ≡ none
  get_behind [] n h = refl
  get_behind (y ∷ p) zero h = absurd (omega arith)
  get_behind (y ∷ p) (suc n) h = get_behind p n (omega arith)

  pub erase-append_here :
      (p : List A) (x : A) (q : List A) → erase_at (length p) (p ++ (x ∷ q)) ≡ p ++ q
  unfolding erase_at
  erase-append_here [] x q = refl
  erase-append_here (y ∷ p) x q = ap (λ (t : List A). y ∷ t) (erase-append_here p x q)

  pub length-erase_at : (i : ℕ) (q : List A) → i < length q → length (erase_at i q) + 1 ≡ length q
  unfolding erase_at
  length-erase_at i [] h = absurd (omega arith)
  length-erase_at zero (x ∷ q) h = omega arith
  length-erase_at (suc i) (x ∷ q) h = omega (arith, length-erase_at i q (omega arith))

  pub get-lt : (q : List A) (i : ℕ) (x : A) → get_elem? q i ≡ some x → i < length q
  get-lt [] i x e = absurd cc
  get-lt (y ∷ q) zero x e = omega arith
  get-lt (y ∷ q) (suc i) x e = omega (arith, get-lt q i x e)

-- An entry that is no JSON, or complete with another name.
abbrev pub IsOther : {J : Type 0} → Bytes → Entry J → Type 0
IsOther header invalid = Unit
IsOther header incomplete = ⊥
IsOther header unnamed = ⊥
IsOther header (complete name v) = bytes_eq name header ≡ false

module _ (lib : JsonLib) (parse : Bytes → Option lib.Json) (header : Bytes) where
  abbrev pub AllOther : List Bytes → Type 0
  AllOther q = All (λ (el : Bytes). IsOther header (entry_of lib parse el)) q

  scan_one :
      (kind : Entry lib.Json) (el : Bytes) (f i : ℕ) (queue : List Bytes) (r : Option lib.Json)
      → get_elem? queue i ≡ some el
      → entry_of lib parse el ≡ kind
      → IsOther header kind
      → scan_queue lib parse (suc f) i header queue r
        ≡ scan_queue lib parse f (i + 1) header queue r
  unfolding scan_queue
  scan_one invalid el f i queue r here is h = rw (scan_queue, here) (rw is refl)
  scan_one incomplete el f i queue r here is h = absurd h
  scan_one unnamed el f i queue r here is h = absurd h
  scan_one (complete name v) el f i queue r here is h = rw (scan_queue, here) (rw (is, h) refl)

  -- Other entries are passed over.
  pub scan_others :
      (q p rest : List Bytes) (f : ℕ) (r : Option lib.Json)
      → AllOther q
      → scan_queue lib parse (length q + f) (length p) header (p ++ (q ++ rest)) r
        ≡ scan_queue lib parse f (length p + length q) header (p ++ (q ++ rest)) r
  scan_others [] p rest f r h =
      let from : 0 + f ≡ f = omega arith in
      let to : length p + 0 ≡ length p = omega arith in rw (from, to) refl
  scan_others (x ∷ q) p rest f r (here, h) =
      let fuel : suc (length q) + f ≡ suc (length q + f) = omega arith in
      let longer : length p + 1 ≡ length (p ++ x ∷ []) = omega (arith, length-append p (x ∷ [])) in
      let whole : p ++ (x ∷ (q ++ rest)) ≡ (p ++ x ∷ []) ++ (q ++ rest) = simp append_assoc in
      let place : length (p ++ x ∷ []) + length q ≡ length p + suc (length q) =
        omega (arith, length-append p (x ∷ [])) in
      rw fuel (
        scan_one (entry_of lib parse x) x (length q + f) (length p) (p ++ (x ∷ (q ++ rest))) r
          (get-append_here p x (q ++ rest)) refl here
        ∙ rw (longer, whole) (scan_others q (p ++ x ∷ []) rest f r h ∙ rw place refl))

  pub scan_end :
      (queue : List Bytes) (f i : ℕ) (r : Option lib.Json)
      → length queue ≤ i
      → scan_queue lib parse (suc f) i header queue r ≡ scanned queue r
  unfolding scan_queue
  scan_end queue f i r h = rw (scan_queue, get_behind queue i h) refl

  pub scan_rest :
      (q p : List Bytes) (f : ℕ) (r : Option lib.Json)
      → AllOther q
      → scan_queue lib parse (length q + suc f) (length p) header (p ++ q) r ≡ scanned (p ++ q) r
  scan_rest q p f r h =
      ap (λ (t : List Bytes). scan_queue lib parse (length q + suc f) (length p) header (p ++ t) r)
        (sym (append-nil q))
      ∙ scan_others q p [] (suc f) r h
      ∙ ap
          (λ (t : List Bytes). scan_queue lib parse (suc f) (length p + length q) header (p ++ t) r)
          (append-nil q)
      ∙ scan_end (p ++ q) f (length p + length q) r (omega (arith, length-append p q))
