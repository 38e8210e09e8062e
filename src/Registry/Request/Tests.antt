-- ===== src/Registry/Request/Tests.antt =====
-- The reading of requests at concrete texts.
use race_slothy.Common.{◌≡◌, refl, some, List, [], ◌∷◌, Bytes, codes, bytes_eq}
use race_slothy.Registry.Request.{
  cut, getlines, iswspace, ltrim, rtrim, trim, get_value, insert_value, read_lines, first_word,
  headers_of, request_of,
}

abbrev header : Bytes
header =
    codes
      "POST /shards HTTP/1.1\r\nContent-Type:  application/json\r\nContent-Length: 13\r\nHost:  x"

abbrev body : Bytes
body = codes "{\"name\":\"so\"}"

abbrev reads : List Bytes
reads =
    codes "POST /shards HTTP/1.1\r\nContent-Type:  application/json\r\nConte"
    ∷ codes "nt-Length: 13\r\nHost:  x\r\n\r"
    ∷ codes "\n{\"name"
    ∷ codes "\":\"so\"}"
    ∷ []

parsed : request_of header body ≡ record {
  command = codes "POST";
  resource = codes "/shards";
  content_type = some (codes "application/json");
  body = body;
}
unfolding request_of headers_of first_word read_lines insert_value get_value trim ltrim rtrim
    iswspace getlines cut bytes_eq
parsed = refl
