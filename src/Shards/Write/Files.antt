-- ===== src/Shards/Write/Files.antt =====
-- What the calls of `write` leave in the shard files, whatever is written.
use race_slothy.Common.{
  ℕ, zero, suc, ◌+◌, ◌≡◌, refl, List, [], ◌∷◌, ◌++◌, arith, Bytes, length, append_assoc,
}
use race_slothy.Shards.{Md5}
use race_slothy.Shards.Write.{
  index_bytes, start_files, append_all, open_files, write_round, hash_files, close_files,
}

-- Shard `i` is its index, its part of the coded metadata, its part of the coded file, and the
-- digests of all parts.
unfoldable pub layout : List Bytes → List Bytes → ℕ → Bytes → List Bytes
layout [] bodies i hashes = []
layout (a ∷ metas) [] i hashes = []
layout (a ∷ metas) (b ∷ bodies) i hashes =
    (index_bytes i ++ (a ++ (b ++ hashes))) ∷ layout metas bodies (i + 1) hashes

module _ (md5 : Md5) where
  unfoldable pub digests : List Bytes → Bytes
  digests [] = []
  digests (b ∷ bodies) = md5.final (md5.update md5.init b) ++ digests bodies

  pub closed :
      (n i : ℕ) (metas bodies : List Bytes) (hashes : Bytes)
      → length metas ≡ n
      → length bodies ≡ n
      → close_files md5 hashes
          (write_round md5 (open_files md5 (append_all (start_files n i) metas)) bodies)
        ≡ layout metas bodies i hashes
  unfolding close_files write_round open_files append_all start_files layout
  closed zero i [] [] hashes p q = refl
  closed zero i (a ∷ metas) bodies hashes p q = absurd (omega arith)
  closed zero i [] (b ∷ bodies) hashes p q = absurd (omega arith)
  closed (suc n) i [] bodies hashes p q = absurd (omega arith)
  closed (suc n) i (a ∷ metas) [] hashes p q = absurd (omega arith)
  closed (suc n) i (a ∷ metas) (b ∷ bodies) hashes p q =
      rw (closed n (i + 1) metas bodies hashes (omega arith) (omega arith)) (simp append_assoc)

  pub hashed :
      (n i : ℕ) (metas bodies : List Bytes)
      → length metas ≡ n
      → length bodies ≡ n
      → hash_files md5
          (write_round md5 (open_files md5 (append_all (start_files n i) metas)) bodies)
        ≡ digests bodies
  unfolding hash_files write_round open_files append_all start_files digests
  hashed zero i [] [] p q = refl
  hashed zero i (a ∷ metas) bodies p q = absurd (omega arith)
  hashed zero i [] (b ∷ bodies) p q = absurd (omega arith)
  hashed (suc n) i [] bodies p q = absurd (omega arith)
  hashed (suc n) i (a ∷ metas) [] p q = absurd (omega arith)
  hashed (suc n) i (a ∷ metas) (b ∷ bodies) p q =
      rw (hashed n (i + 1) metas bodies (omega arith) (omega arith)) refl
