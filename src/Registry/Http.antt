-- ===== src/Registry/Http.antt =====
-- registry-client/src/http/httpServer.cpp: `handleClient`, from the request that is read to the
-- answer, and `httpRespond`.
pub mod Respond
use race_slothy.Common.{
  ℕ, ◌+◌, ◌≡◌, Bool, true, false, Option, none, some, [], ◌∷◌, ◌++◌, Bytes, codes, ◌==◌,
  if◌then◌else◌, length, take, drop, print_nat, ℤ, pos, negsuc, Malloc, memcpy, bytes_eq,
}
use race_slothy.Registry.{Sqlite, store_shard_entry, shard_exists, get_shard_data}

-- The parts of an `HTTPRequest` that are used; the content type is `none` if there is no header
-- `Content-Type`.
pub record HttpRequest : Type 0 where
  pub command : Bytes
  pub resource : Bytes
  pub content_type : Option Bytes
  pub body : Bytes

-- What nlohmann's JSON parser finds as `name`: no JSON or a name that is not a string (both throw),
-- no name, or a string.
pub data JsonName : Type 0 where
  throws : JsonName
  no_name : JsonName
  named_as : Bytes → JsonName

-- The header, and the body unless it is the null pointer.
abbrev pub Answer : Type 0
Answer = Bytes × Option Bytes

abbrev pub ok200_header : Bytes
ok200_header = codes "HTTP/1.1 200 OK\n"

abbrev pub err404_header : Bytes
err404_header = codes "HTTP/1.1 404 Not Found\n"

abbrev pub err404_body : Bytes
err404_body =
    codes
      "<html>\n<head>\n<title>404 - Not Found</title>\n</head>\n<body>\n<h1>404 - Not Found</h1>\n</body>\n</html>\n"

abbrev pub not_found : Answer
not_found = (err404_header, some err404_body)

-- a C string of a text: up to its first zero
unfoldable pub c_str : Bytes → Bytes
c_str [] = []
c_str (x ∷ xs) = if x == 0 then [] else x ∷ c_str xs

module _ (sql : Sqlite) (parse : Bytes → JsonName) where
  -- The branch of a POST: the answer and the database. `none` is the null pointer given to `strcmp`,
  -- or an exception that leaves the thread.
  unfoldable pub handle_post : sql.Db → HttpRequest → Option (Answer × sql.Db)
  handle_post db request = elim request.content_type [
    | none ↦ none
    | some content_type ↦
        if bytes_eq (c_str content_type) (codes "application/json")
        then elim (parse (c_str request.body)) [
          | throws ↦ none
          | no_name ↦ some (not_found, db)
          | named_as n ↦
              some
                ((ok200_header, none), (store_shard_entry sql db (c_str n) (c_str request.body)).1)
        ]
        else some (not_found, db)
  ]

  -- The other branch. `request.getResource() + 1` of an empty resource is outside of the string.
  unfoldable pub handle_get : sql.Db → HttpRequest → Option (Answer × sql.Db)
  handle_get db request = elim (c_str request.resource) [
    | [] ↦ none
    | slash ∷ shard_name ↦ elim (shard_exists sql db shard_name) [
      | negsuc n ↦ some (not_found, db)
      | pos found ↦
          if found == 1
          then elim (get_shard_data sql db shard_name) [
            | none ↦ some (not_found, db)
            | some shard_data ↦ some ((ok200_header, some (c_str shard_data)), db)
          ]
          else some (not_found, db)
    ]
  ]

  unfoldable pub handle_client : sql.Db → HttpRequest → Option (Answer × sql.Db)
  handle_client db request =
      if bytes_eq (c_str request.command) (codes "POST")
      then handle_post db request
      else handle_get db request

-- What is written to the socket; `none` if `snprintf` leaves the block of `malloc`. The block has
-- `int(log10(n) + 1)` bytes, the number of digits of the length `n` (of which 0 has no logarithm).
unfoldable pub http_respond : Malloc → Answer → Option Bytes
http_respond heap (header, none) =
    some (
      header
      ++ codes "Connection: close\n"
      ++ codes "Content-Type: text/html\n"
      ++ codes "\r\n\r\n")
http_respond heap (header, some body) =
    let digits = print_nat (length body) in
    let text = take (16 + length digits) (codes "Content-Length: " ++ digits) ++ 0 ∷ [] in
    if length body == 0 then none else elim (memcpy (heap.fresh (length digits)) 0 text) [
      | none ↦ none
      | some content_length ↦ some (
          header
          ++ codes "Connection: close\n"
          ++ codes "Content-Type: text/html\n"
          ++ c_str content_length
          ++ codes "\r\n\r\n"
          ++ body)
    ]
