-- ===== src/Monitor/Log.antt =====
-- logger.cpp: what a sequence of messages leaves.
use Prim.Native.String.{String}
use race_slothy.Common.{Option, none, some, codes, flatten, Bool, true, List, [], ◌∷◌, ◌++◌, Bytes}
use race_slothy.Monitor.{none_level, err, warn, info, dbg, LogLevel, Logger, log}

abbrev pub LogEntry : Type 0
LogEntry = LogLevel × (Bytes × Bytes)

unfoldable pub log_all : List LogEntry → Logger → Logger
log_all [] logger = logger
log_all ((level, (tag, msg)) ∷ entries) logger = log_all entries (log level tag msg logger)

-- The levels that each level of a logger lets through, as names for the output.
unfoldable pub let_through : LogLevel → LogLevel → Option String
let_through none_level level = none
let_through err none_level = some "NONE"
let_through err err = some "ERR"
let_through err warn = none
let_through err info = none
let_through err dbg = none
let_through warn none_level = some "NONE"
let_through warn err = some "ERR"
let_through warn warn = some "WARN"
let_through warn info = none
let_through warn dbg = none
let_through info none_level = some "NONE"
let_through info err = some "ERR"
let_through info warn = some "WARN"
let_through info info = some "INFO"
let_through info dbg = none
let_through dbg none_level = some "NONE"
let_through dbg err = some "ERR"
let_through dbg warn = some "WARN"
let_through dbg info = some "INFO"
let_through dbg dbg = some "DBG"

-- A line with the name of a level.
abbrev pub line_of : String → Bytes → Bytes → Bytes
line_of name tag msg =
    flatten (codes "[" ∷ codes name ∷ codes "]\t[" ∷ tag ∷ codes "]\t" ∷ msg ∷ codes "\n" ∷ [])

-- The lines that a logger of a level lets through.
unfoldable pub lines_for : LogLevel → List LogEntry → Bytes
lines_for current [] = []
lines_for current ((level, (tag, msg)) ∷ entries) =
    let rest = lines_for current entries in
    elim (let_through current level) [ none ↦ rest | some name ↦ line_of name tag msg ++ rest ]

-- A logger that writes to a file.
abbrev pub filing : LogLevel → Bytes → Bool → Bytes → List (Bytes × Bytes) → Logger
filing level name profile printed files = record {
  log_level = level;
  log_to_file = true;
  log_file = name;
  should_log_profile = profile;
  printed = printed;
  files = files;
}
