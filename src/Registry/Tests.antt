-- ===== src/Registry/Tests.antt =====
-- The theorems on the registry at a concrete database.
use race_slothy.Common.{
  ℕ, ◌≡◌, refl, ap, none, some, [], arith, Bytes, codes, replicate, get_or, Malloc,
  length-replicate,
}
use race_slothy.Registry.Http.{JsonName, named_as, ok200_header, c_str, handle_client, http_respond}
use race_slothy.Registry.Http.Respond.{json_post, get_of, get-post, http_respond-overflow}
use race_slothy.Registry.Toy.{Table, memory}

different : ¬ (codes "b" ≡ codes "a")
different e = let first : ◌≡◌ {A = ℕ} 98 97 = ap (λ (t : Bytes). get_or t 0 0) e in omega arith

-- A parser that takes a whole text for the name.
abbrev whole : Bytes → JsonName
whole text = named_as text

get-post_example :
    (db : Table) × (handle_client memory whole [] (json_post (codes "a"))
      ≡ some ((ok200_header, none), db))
    × (handle_client memory whole db (get_of (codes "a"))
        ≡ some ((ok200_header, some (c_str (codes "a"))), db))
unfolding c_str
get-post_example = get-post memory whole [] (codes "a") (codes "a") tt refl refl

abbrev clean : Malloc
clean = record { fresh = λ n. replicate n 0; length-fresh = λ n. length-replicate n 0 }

http_respond-overflow_example :
    http_respond clean (ok200_header, some (codes "a shard's metadata")) ≡ none
http_respond-overflow_example =
    http_respond-overflow clean ok200_header (codes "a shard's metadata")
