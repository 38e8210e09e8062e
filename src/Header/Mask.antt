-- ===== src/Header/Mask.antt =====
-- The mask of `randomize_header` without its buffer: a concatenation of digests.
use race_slothy.Common.{
  ◌>>=◌, ℕ, zero, suc, ◌+◌, ◌-◌, ◌*◌, ◌/◌, ◌≤◌, ◌<◌, ◌≡◌, refl, sym, ap, ◌∙◌, none, some, [], ◌++◌,
  arith, Bytes, u32, length, take, drop, length-append, length-take, length-drop, append_assoc,
  append-nil, drop_all, Malloc, memcpy_behind, memcpy_outside,
}
use race_slothy.Header.{Sha256, le32, num_hashes, digest, rehash, stretch, keystream}

length_parts :
    (a b d : Bytes) (k n : ℕ)
    → length a ≡ 32
    → length b ≡ k * 32
    → length d ≡ 32
    → n ≤ 32
    → length (a ++ (b ++ take n d)) ≡ 32 + k * 32 + n
length_parts a b d k n ha hb hd hn =
    omega (arith, length-append a (b ++ take n d), length-append b (take n d), length-take n d)

module _ (sha : Sha256) where
  open sha use {Ctx, init, update, final, length-final}

  digest-length : (c : Ctx) (input : Bytes) → length (digest sha c input).0 ≡ 32
  unfolding digest
  digest-length c input = length-final _

  rehash-length : (n : ℕ) (h : Bytes × Ctx) → length h.0 ≡ 32 → length (rehash sha n h).0 ≡ 32
  unfolding rehash
  rehash-length zero h e = e
  rehash-length (suc n) (h, c) e = rehash-length n (digest sha c h) (digest-length c h)

  -- The digests of the seed with the counters after `counter`, one behind the other.
  unfoldable pub blocks : ℕ → ℕ → Bytes → Ctx → Bytes × Ctx × ℕ
  unfolding digest
  blocks zero counter seed c = ([], c, counter)
  blocks (suc n) counter seed c =
      let counter' = u32 (counter + 1) in
      let (hash, c') = digest sha c (seed ++ le32 counter') in
      let (more, c'', counter'') = blocks n counter' seed c' in (hash ++ more, c'', counter'')

  length-blocks :
      (n counter : ℕ) (seed : Bytes) (c : Ctx) → length (blocks n counter seed c).0 ≡ n * 32
  unfolding blocks
  length-blocks zero counter seed c = refl
  length-blocks (suc n) counter seed c =
      let counter' = u32 (counter + 1) in
      let d = digest sha c (seed ++ le32 counter') in
      length-append d.0 (blocks n counter' seed d.1).0
      ∙ omega (arith, digest-length c (seed ++ le32 counter'), length-blocks n counter' seed d.1)

  -- The seed, the digests of all counters but the last, and of the last the bytes that are left.
  unfoldable pub mask : Bytes → ℕ → Bytes
  unfolding rehash blocks
  mask pre_image size =
      let seed = rehash sha (num_hashes - size / 32) (digest sha init pre_image) in
      let (body, c, counter) = blocks (size / 32 - 1) 0 seed.0 seed.1 in
      seed.0
      ++ (body
          ++ take (size - size / 32 * 32) (digest sha c (seed.0 ++ le32 (u32 (counter + 1)))).0)

  pub length-mask : (pre : Bytes) (size : ℕ) → 32 ≤ size → length (mask pre size) ≡ size
  unfolding mask
  length-mask pre size h =
      let seed = rehash sha (num_hashes - size / 32) (digest sha init pre) in
      let body = blocks (size / 32 - 1) 0 seed.0 seed.1 in
      let input = seed.0 ++ le32 (u32 (body.2 + 1)) in
      length_parts seed.0 body.0 (digest sha body.1 input).0 (size / 32 - 1) (size - size / 32 * 32)
        (rehash-length (num_hashes - size / 32) (digest sha init pre) (digest-length init pre))
        (length-blocks (size / 32 - 1) 0 seed.0 seed.1) (digest-length body.1 input) (omega arith)
      ∙ omega arith

  stretch-blocks :
      (n i counter : ℕ) (seed : Bytes) (c : Ctx) (front rest : Bytes)
      → length front ≡ i
      → n * 32 ≤ length rest
      → (tail : Bytes) × (length tail ≡ length rest - n * 32)
        × (stretch sha n i counter seed c (front ++ rest)
            ≡ some (
              (front ++ (blocks n counter seed c).0) ++ tail,
              (blocks n counter seed c).1,
              (blocks n counter seed c).2,
            ))
  unfolding stretch blocks
  stretch-blocks zero i counter seed c front rest e fits = (rest, omega arith, rw append-nil)
  stretch-blocks (suc n) i counter seed c front rest e fits =
      let counter' = u32 (counter + 1) in
      let d = digest sha c (seed ++ le32 counter') in
      let size : length d.0 ≡ 32 = digest-length c (seed ++ le32 counter') in
      let placed = memcpy_behind front rest d.0 e (omega arith) in
      let rest' = drop (length d.0) rest in
      let (tail, left, eq) =
        stretch-blocks n (i + 32) counter' seed d.1 (front ++ d.0) rest'
          (omega (arith, length-append front d.0)) (omega (arith, length-drop (length d.0) rest)) in
      (
        tail,
        omega (arith, length-drop (length d.0) rest),
        rw (placed, ◌>>=◌)
            (ap (λ (b : Bytes). stretch sha n (i + 32) counter' seed d.1 b)
                (sym (append_assoc front d.0 rest'))
              ∙ eq
              ∙ ap
                  (λ (b : Bytes).
                    some
                      (b ++ tail, (blocks n counter' seed d.1).1, (blocks n counter' seed d.1).2))
                  (append_assoc front d.0 (blocks n counter' seed d.1).0)),
      )

  module _ (heap : Malloc) where
    open heap use {fresh, length-fresh}

    -- A buffer of at least 32 bytes is filled with the mask, whatever it held.
    pub keystream-mask :
        (pre : Bytes) (size : ℕ) → 32 ≤ size → keystream sha heap pre size ≡ some (mask pre size)
    unfolding keystream mask
    keystream-mask pre size h =
        let seed = rehash sha (num_hashes - size / 32) (digest sha init pre) in
        let seed_size : length seed.0 ≡ 32 =
          rehash-length (num_hashes - size / 32) (digest sha init pre) (digest-length init pre) in
        let first = memcpy_behind [] (fresh size) seed.0 refl (omega (arith, length-fresh size)) in
        let rest = drop (length seed.0) (fresh size) in
        let rest_size : length rest ≡ size - 32 =
          omega (arith, length-drop (length seed.0) (fresh size), length-fresh size) in
        let (tail, left, eq) =
          stretch-blocks (size / 32 - 1) 32 0 seed.0 seed.1 seed.0 rest seed_size (omega arith) in
        let body = blocks (size / 32 - 1) 0 seed.0 seed.1 in
        let input = seed.0 ++ le32 (u32 (body.2 + 1)) in
        let last = take (size - size / 32 * 32) (digest sha body.1 input).0 in
        let last_size : length last ≡ size - size / 32 * 32 = omega (
          arith,
          length-take (size - size / 32 * 32) (digest sha body.1 input).0,
          digest-length body.1 input,
        ) in
        let front_size : length (seed.0 ++ body.0) ≡ size / 32 * 32 =
          omega
            (arith, length-append seed.0 body.0, length-blocks (size / 32 - 1) 0 seed.0 seed.1) in
        let final_copy = memcpy_behind (seed.0 ++ body.0) tail last front_size (omega arith) in
        rw
          (
            first,
            ◌>>=◌,
            eq,
            final_copy,
            drop_all (length last) tail (omega arith),
            append-nil,
            append_assoc seed.0,
          )
          refl

    -- In a buffer of fewer the first `memcpy` does not fit.
    pub keystream_small : (pre : Bytes) (size : ℕ) → size < 32 → keystream sha heap pre size ≡ none
    unfolding keystream
    keystream_small pre size h =
        let seed = rehash sha (num_hashes - size / 32) (digest sha init pre) in
        rw
          (
            memcpy_outside (fresh size) seed.0 0 (
                omega (
                  arith,
                  length-fresh size,
                  rehash-length (num_hashes - size / 32) (digest sha init pre)
                      (digest-length init pre),
                )),
            ◌>>=◌,
          )
          refl
