-- ===== src/Registry/Request/Cuts.antt =====
-- request.cpp: a request does not depend on how it is cut into reads.
use race_slothy.Common.{◌≡◌, true, false, Option, none, some, Bytes, take, bytes_eq}
use race_slothy.Registry.Request.{delimiter}

abbrev AtDelimiter : Bytes → Type 0
AtDelimiter s = bytes_eq (take 4 s) delimiter ≡ true

abbrev NotAtDelimiter : Bytes → Type 0
NotAtDelimiter s = bytes_eq (take 4 s) delimiter ≡ false

part_of : Bytes × Bytes → Option (Bytes × Bytes) → Bytes × Bytes
part_of d none = d
part_of d (some p) = p
