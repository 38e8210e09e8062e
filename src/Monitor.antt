-- ===== src/Monitor.antt =====
-- artifact-manager-plugin/src/util: logger.cpp, which filters and writes messages, and profiler.cpp,
-- which times sections. The maps of the sources are lists of pairs with different keys; their order
-- does not matter here.
pub mod Log
pub mod Timing
mod Tests
use race_slothy.Common.{
  ℕ, Bool, true, false, not, Option, none, some, List, [], ◌∷◌, ◌++◌, Bytes, codes, bytes_eq, leb,
  ◌==◌, if◌then◌else◌,
}

pub data LogLevel : Type 0 where
  none_level : LogLevel
  err : LogLevel
  warn : LogLevel
  info : LogLevel
  dbg : LogLevel

-- The value of the enumeration.
unfoldable pub rank : LogLevel → ℕ
rank none_level = 0
rank err = 1
rank warn = 2
rank info = 3
rank dbg = 4

unfoldable pub log_level_to_string : LogLevel → Bytes
log_level_to_string info = codes "INFO"
log_level_to_string warn = codes "WARN"
log_level_to_string err = codes "ERR"
log_level_to_string dbg = codes "DBG"
log_level_to_string none_level = codes "NONE"

-- The logger, with what it has printed and the contents of the log files.
pub record Logger : Type 0 where
  pub log_level : LogLevel
  pub log_to_file : Bool
  pub log_file : Bytes
  pub should_log_profile : Bool
  pub printed : Bytes
  pub files : List (Bytes × Bytes)

-- The singleton: the constructor, and the default level of the header.
abbrev pub new_logger : Logger
new_logger = record {
  log_level = dbg;
  log_to_file = false;
  log_file = [];
  should_log_profile = false;
  printed = [];
  files = [];
}

unfoldable pub line : LogLevel → Bytes → Bytes → Bytes
line level tag msg =
    codes "["
    ++ (log_level_to_string level
        ++ (codes "]\t[" ++ (tag ++ (codes "]\t" ++ (msg ++ codes "\n")))))

-- `fopen(…, "a")`, which succeeds, and `fprintf`
unfoldable pub append_to : Bytes → Bytes → List (Bytes × Bytes) → List (Bytes × Bytes)
append_to name text [] = (name, text) ∷ []
append_to name text ((k, content) ∷ files) =
    if bytes_eq k name
    then (k, content ++ text) ∷ files
    else (k, content) ∷ append_to name text files

-- `if(this->logLevel == LogLevel::NONE)`, then `logLevel <= this->logLevel`
unfoldable pub is_logged : LogLevel → LogLevel → Bool
is_logged current level = if rank current == 0 then false else leb (rank level) (rank current)

unfoldable pub log : LogLevel → Bytes → Bytes → Logger → Logger
log level tag msg logger =
    if is_logged logger.log_level level
    then record logger {
      printed = logger.printed ++ line level tag msg;
      files =
          if logger.log_to_file
          then append_to logger.log_file (line level tag msg) logger.files
          else logger.files;
    }
    else logger

unfoldable pub set_log_level : LogLevel → Logger → Logger
set_log_level level logger = record logger { log_level = level }

unfoldable pub enable_log_to_file : Bytes → Logger → Logger
enable_log_to_file path logger =
    record (log info (codes "Logger") (codes "Logging to file has been enabled") logger) {
      log_file = path;
      log_to_file = true;
    }

unfoldable pub enable_profiler_logging : Logger → Logger
enable_profiler_logging logger = record logger { should_log_profile = true }

-- A map with texts as keys.
unfoldable pub find {ℓ} : {V : Type ℓ} → List (Bytes × V) → Bytes → Option V
find [] key = none
find ((k, v) ∷ fields) key = if bytes_eq k key then some v else find fields key

-- `map[key] = v`
unfoldable pub assign {ℓ} : {V : Type ℓ} → Bytes → V → List (Bytes × V) → List (Bytes × V)
assign key v [] = (key, v) ∷ []
assign key v ((k, old) ∷ fields) =
    if bytes_eq k key then (k, v) ∷ fields else (k, old) ∷ assign key v fields

unfoldable pub or_default {ℓ} : {V : Type ℓ} → V → Option V → V
or_default v none = v
or_default v (some w) = w

-- The points of time of the clock, the epoch, the seconds between two of them as a `float`, the sum
-- of `float` values from zero on, and what `%f` prints.
pub record Clock : Type 1 where
  pub Time : Type 0
  pub Seconds : Type 0
  pub epoch : Time
  pub elapsed : Time → Time → Seconds
  pub zero_seconds : Seconds
  pub to_text : Seconds → Bytes
  pub plus : Seconds → Seconds → Seconds

-- The profiler: the sections with whether they are open, their start times and their timings.
pub record Profiler (c : Clock) : Type 0 where
  pub enabled : Bool
  pub sections_open : List (Bytes × Bool)
  pub sections_start_times : List (Bytes × c.Time)
  pub timings_log : List (Bytes × List c.Seconds)

module _ (c : Clock) where
  unfoldable pub enable : Profiler c → Profiler c
  enable p = record p { enabled = true }

  unfoldable pub is_open : Profiler c → Bytes → Bool
  is_open p name = or_default false (find p.sections_open name)

  unfoldable pub begin_profiler_section : c.Time → Bytes → Profiler c → Profiler c
  begin_profiler_section now name p =
      if not p.enabled then p else if is_open p name then p else record p {
        sections_open = assign name true p.sections_open;
        sections_start_times = assign name now p.sections_start_times;
      }

  unfoldable pub end_profiler_section : c.Time → Bytes → Profiler c → Profiler c
  end_profiler_section now name p =
      if not p.enabled then p else if not (is_open p name) then p else record p {
        sections_open = assign name false p.sections_open;
        timings_log =
            assign name
              (or_default [] (find p.timings_log name)
                ++ c.elapsed now (or_default c.epoch (find p.sections_start_times name)) ∷ [])
              p.timings_log;
      }

  unfoldable pub sum_timings : c.Seconds → List c.Seconds → c.Seconds
  sum_timings sum [] = sum
  sum_timings sum (n ∷ value) = sum_timings (c.plus sum n) value

  unfoldable pub finalize_timings : List (Bytes × List c.Seconds) → List (Bytes × c.Seconds)
  finalize_timings [] = []
  finalize_timings ((key, value) ∷ timings) =
      (key, sum_timings c.zero_seconds value) ∷ finalize_timings timings

  unfoldable pub timing_row : Bytes → c.Seconds → Bytes
  timing_row key value = key ++ (codes "," ++ (c.to_text value ++ codes "\n"))

  -- The rows of all sections but `total`.
  unfoldable pub other_rows : List (Bytes × c.Seconds) → Bytes
  other_rows [] = []
  other_rows ((key, value) ∷ results) =
      let rest = other_rows results in
      if bytes_eq key (codes "total") then rest else timing_row key value ++ rest

  -- `printResults`: the content of timings.csv, which can be opened; the row of `total` is the last.
  unfoldable pub print_results : List (Bytes × c.Seconds) → Bytes
  print_results results = elim (find results (codes "total")) [
    | none ↦ other_rows results
    | some total_t ↦ other_rows results ++ timing_row (codes "total") total_t
  ]
