-- ===== src/Registry/Request.antt =====
-- registry-client/src/http/request.cpp: `HTTPRequest::readRequest`, with `trim` of util/strlib.cpp.
-- What the calls of SSL_read give is an argument: the bytes of each, BUFSIZ at most, and an empty one
-- where it gives no byte or fails, as also behind the last. The buffer is cleared once and keeps what
-- earlier reads have left in it. The numbers are those that an `int` holds. Characters from 128 on are
-- no white space.
pub mod Buffer
pub mod Cuts
mod Tests
use race_slothy.Common.{
  ℕ, zero, suc, ◌+◌, ◌-◌, Bool, true, false, ◌&&◌, ◌||◌, Option, none, some, List, [], ◌∷◌, ◌++◌,
  Bytes, codes, ltb, leb, ◌==◌, if◌then◌else◌, length, take, drop, replicate, bytes_eq, ℤ, pos,
  negsuc, scan_int,
}
use race_slothy.Registry.Http.{HttpRequest, c_str}

-- `"\r\n\r\n"`
abbrev pub delimiter : Bytes
delimiter = 13 ∷ 10 ∷ 13 ∷ 10 ∷ []

-- `header.find("\r\n\r\n")`: what stands before the first of them, and behind it
unfoldable pub split_header : Bytes → Option (Bytes × Bytes)
split_header [] = none
split_header (c ∷ s) =
    let rest = split_header s in
    if bytes_eq (take 4 (c ∷ s)) delimiter
    then some ([], drop 3 s)
    else elim rest [ none ↦ none | some r ↦ some (c ∷ r.0, r.1) ]

-- `BUFSIZ` of the C library
abbrev pub bufsiz : ℕ
bufsiz = 8192

-- the buffer after `memset`
unfoldable pub clear_buffer : Bytes
clear_buffer = replicate bufsiz 0

-- `SSL_read(ssl_socket, sock_buff_raw, buffer_size)`
unfoldable pub ssl_read : Bytes → Bytes → Bytes
ssl_read r buf = r ++ drop (length r) buf

-- `std::string(sock_buff_raw)`: `none` is a buffer without a zero, which is read past its end.
unfoldable pub buffer_string : Bytes → Option Bytes
buffer_string buf = let s = c_str buf in if ltb (length s) (length buf) then some s else none

-- What the first loop leaves: the header, the part of the body that was read with it, the reads to
-- come and the buffer.
pub record HeaderRead : Type 0 where
  pub header : Bytes
  pub body : Bytes
  pub reads : List Bytes
  pub buffer : Bytes

-- The first loop. The string is made of the buffer also when nothing was read.
unfoldable pub read_header : List Bytes → Bytes → Bytes → Option HeaderRead
read_header [] buf header = elim (buffer_string buf) [
  | none ↦ none
  | some s ↦ some (record { header = header; body = []; reads = []; buffer = buf })
]
read_header ([] ∷ reads) buf header = elim (buffer_string buf) [
  | none ↦ none
  | some s ↦ some (record { header = header; body = []; reads = reads; buffer = buf })
]
read_header ((c ∷ r) ∷ reads) buf header =
    let buf' = ssl_read (c ∷ r) buf in
    elim (buffer_string buf') [
      | none ↦ none
      | some s ↦
          let header' = header ++ take (length (c ∷ r)) s in
          elim (split_header header') [
            | none ↦ read_header reads buf' header'
            | some p ↦ some (record { header = p.0; body = p.1; reads = reads; buffer = buf' })
          ]
    ]

-- The last loop, with the bytes received.
unfoldable pub read_body : ℕ → ℕ → List Bytes → Bytes → Bytes → Option Bytes
read_body content_length received [] buf body = elim (buffer_string buf) [
  | none ↦ none
  | some s ↦ some body
]
read_body content_length received ([] ∷ reads) buf body = elim (buffer_string buf) [
  | none ↦ none
  | some s ↦ some body
]
read_body content_length received ((c ∷ r) ∷ reads) buf body =
    let buf' = ssl_read (c ∷ r) buf in
    elim (buffer_string buf') [
      | none ↦ none
      | some s ↦
          let body' = body ++ take (length (c ∷ r)) s in
          let received' = received + length (c ∷ r) in
          let rest = read_body content_length received' reads buf' body' in
          if received' == content_length then some body' else rest
    ]

-- `find` of one character: what stands before it, and behind it
unfoldable pub cut : ℕ → Bytes → Option (Bytes × Bytes)
cut c [] = none
cut c (x ∷ s) =
    let rest = cut c s in
    if x == c then some ([], s) else elim rest [ none ↦ none | some r ↦ some (x ∷ r.0, r.1) ]

-- the lines that `getline` gives
unfoldable pub getlines : Bytes → List Bytes
getlines [] = []
getlines (c ∷ s) =
    let rest = getlines s in
    if c == 10 then [] ∷ rest else elim rest [ [] ↦ (c ∷ []) ∷ [] | l ∷ ls ↦ (c ∷ l) ∷ ls ]

-- `iswspace`
unfoldable pub iswspace : ℕ → Bool
iswspace c = c == 32 || leb 9 c && leb c 13

unfoldable pub ltrim : Bytes → Bytes
ltrim [] = []
ltrim (c ∷ s) = let rest = ltrim s in if iswspace c then rest else c ∷ s

-- A character is kept if it is no space, or if one behind it is kept.
unfoldable pub rtrim : Bytes → Bytes
rtrim [] = []
rtrim (c ∷ s) =
    let rest = rtrim s in elim rest [ [] ↦ if iswspace c then [] else c ∷ [] | d ∷ t ↦ c ∷ (d ∷ t) ]

unfoldable pub trim : Bytes → Bytes
trim s = ltrim (rtrim s)

abbrev pub Headers : Type 0
Headers = List (Bytes × Bytes)

unfoldable pub get_value : Headers → Bytes → Option Bytes
get_value [] key = none
get_value ((k, v) ∷ headers) key = if bytes_eq k key then some v else get_value headers key

-- `headers.insert`, which keeps a value that is there
unfoldable pub insert_value : Headers → Bytes → Bytes → Headers
insert_value headers key value = elim (get_value headers key) [
  | none ↦ (key, value) ∷ headers
  | some old ↦ headers
]

-- `while (getline(raw_stream, line) && line != "\r")`
unfoldable pub read_lines : List Bytes → Headers → Headers
read_lines [] headers = headers
read_lines (line ∷ lines) headers =
    if bytes_eq line (13 ∷ []) then headers else elim (cut 58 line) [
      | none ↦ read_lines lines headers
      | some p ↦ read_lines lines (insert_value headers (trim p.0) (trim p.1))
    ]

-- The command and what is left of the line: all of it when there is no blank, since
-- `erase(0, npos + 1)` erases nothing.
unfoldable pub first_word : Bytes → Bytes × Bytes
first_word line = elim (cut 32 line) [ none ↦ (line, line) | some p ↦ p ]

unfoldable pub headers_of : Bytes → Headers
headers_of header = elim (getlines header) [ [] ↦ [] | line ∷ lines ↦ read_lines lines [] ]

unfoldable pub request_of : Bytes → Bytes → HttpRequest
request_of header body =
    let line : Bytes = elim (getlines header) [ [] ↦ [] | l ∷ ls ↦ l ] in
    let (command, rest) = first_word line in
    record {
      command = command;
      resource = (first_word rest).0;
      content_type = get_value (headers_of header) (codes "Content-Type");
      body = body;
    }

-- The body, after what the header says of its length.
unfoldable pub more_body : ℤ → Bytes → List Bytes → Bytes → Option Bytes
more_body (negsuc n) body reads buf = some body
more_body (pos n) body reads buf =
    if ltb (length body) n then read_body (n - length body) 0 reads buf body else some body

-- A request, the exception that `stoi` throws, or a read past the end of the buffer.
pub data Received : Type 0 where
  request : HttpRequest → Received
  bad_number : Received
  overread : Received

unfoldable pub with_body : Bytes → Option Bytes → Received
with_body header none = overread
with_body header (some body) = request (request_of header body)

unfoldable pub read_request : List Bytes → Received
read_request reads = elim (read_header reads clear_buffer []) [
  | none ↦ overread
  | some h ↦ elim (get_value (headers_of h.header) (codes "Content-Length")) [
    | none ↦ request (request_of h.header h.body)
    | some value ↦ elim (scan_int value) [
      | none ↦ bad_number
      | some n ↦ with_body h.header (more_body n.0 h.body h.reads h.buffer)
    ]
  ]
]
