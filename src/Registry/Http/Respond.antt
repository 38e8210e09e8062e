-- ===== src/Registry/Http/Respond.antt =====
-- What a client of the registry is answered.
use race_slothy.Common.{
  ◌+◌, ◌<◌, ◌≡◌, refl, ◌∙◌, none, some, [], ◌∷◌, ◌++◌, arith, Bytes, codes, ◌==◌, Bool-cases, inl,
  inr, bytes_eq, length, length-append, length-take, take, print_nat, pos, Malloc, memcpy_outside,
}
use race_slothy.Registry.{Sqlite, row, done, store_shard_entry, shard_exists, get_shard_data}
use race_slothy.Registry.Http.{
  HttpRequest, JsonName, named_as, ok200_header, c_str, handle_post, handle_get, handle_client,
  http_respond,
}

c_str-c_str : (s : Bytes) → c_str (c_str s) ≡ c_str s
unfolding c_str
c_str-c_str [] = refl
c_str-c_str (x ∷ s) = elim (Bool-cases (x == 0)) [
  | inl e ↦ rw e refl
  | inr e ↦ rw (e, c_str, e, c_str-c_str s) refl
]

-- A POST of JSON.
abbrev pub json_post : Bytes → HttpRequest
json_post body = record {
  command = codes "POST";
  resource = codes "/";
  content_type = some (codes "application/json");
  body = body;
}

-- A GET of the resource with this name.
abbrev pub get_of : Bytes → HttpRequest
get_of name = record {
  command = codes "GET";
  resource = b'/' ∷ name;
  content_type = none;
  body = [];
}

module _ (sql : Sqlite) (parse : Bytes → JsonName) where
  post_stores :
      (db : sql.Db) (name body : Bytes)
      → parse (c_str body) ≡ named_as name
      → handle_client sql parse db (json_post body)
        ≡ some ((ok200_header, none), (store_shard_entry sql db (c_str name) (c_str body)).1)
  unfolding handle_client handle_post c_str bytes_eq
  post_stores db name body h = rw h refl

  get_finds :
      (db : sql.Db) (name json : Bytes)
      → sql.select db (c_str name) ≡ row json
      → handle_client sql parse db (get_of name) ≡ some ((ok200_header, some (c_str json)), db)
  unfolding handle_client handle_get c_str bytes_eq
  get_finds db name json h =
      let exists : shard_exists sql db (c_str name) ≡ pos 1 =
        unfold shard_exists in rw (shard_exists, h) refl in
      let stored : get_shard_data sql db (c_str name) ≡ some json =
        unfold get_shard_data in rw (get_shard_data, h) refl in
      rw (handle_get, exists) (rw stored refl)

  -- When JSON with a name that a usable database does not have is posted, the answer is 200 without
  -- a body, and a GET of that name is then answered by 200 and the posted text up to its first zero.
  pub get-post :
      (db : sql.Db) (name body : Bytes)
      → sql.Usable db
      → sql.select db (c_str name) ≡ done
      → parse (c_str body) ≡ named_as name
      → (db' : sql.Db) × (handle_client sql parse db (json_post body)
          ≡ some ((ok200_header, none), db'))
        × (handle_client sql parse db' (get_of name)
            ≡ some ((ok200_header, some (c_str body)), db'))
  unfolding store_shard_entry
  get-post db name body usable absent h =
      let (stored, found) = sql.insert_new db (c_str name) (c_str body) usable absent in
      let db' = (sql.insert db (c_str name) (c_str body)).1 in
      (
        db',
        post_stores db name body h ∙ rw (store_shard_entry, stored) refl,
        get_finds db' name (c_str body) found ∙ rw (c_str-c_str body) refl,
      )

  -- When the name is taken, the answer to a POST is 200 all the same, and the database, with its
  -- older entry, is as before.
  pub post_taken :
      (db : sql.Db) (name body old : Bytes)
      → sql.Usable db
      → sql.select db (c_str name) ≡ row old
      → parse (c_str body) ≡ named_as name
      → handle_client sql parse db (json_post body) ≡ some ((ok200_header, none), db)
  unfolding store_shard_entry
  post_taken db name body old usable taken h =
      let refused = sql.insert_taken db (c_str name) (c_str body) old usable taken in
      post_stores db name body h ∙ rw (store_shard_entry, refused) (rw refused refl)

-- Whatever the body is, an answer with a body writes the line of its length behind the block that
-- `malloc` gave for it.
pub http_respond-overflow :
    (heap : Malloc) (header body : Bytes) → http_respond heap (header, some body) ≡ none
unfolding http_respond
http_respond-overflow heap header body = elim (Bool-cases (length body == 0)) [
  | inl e ↦ rw e refl
  | inr e ↦
      let digits = print_nat (length body) in
      let line = codes "Content-Length: " ++ digits in
      let outside : length (heap.fresh (length digits))
          < 0 + length (take (16 + length digits) line ++ 0 ∷ []) =
        omega (
          arith,
          heap.length-fresh (length digits),
          length-append (take (16 + length digits) line) (0 ∷ []),
          length-take (16 + length digits) line,
          length-append (codes "Content-Length: ") digits,
        ) in
      rw
        (
          e,
          memcpy_outside (heap.fresh (length digits)) (take (16 + length digits) line ++ 0 ∷ []) 0
              outside,
        )
        refl
]
