-- ===== src/Logs.antt =====
-- browser-trace/logs.py: the handlers of the logger, and the records in the log file.
pub mod Sinks
pub mod Delivery
pub mod Torn
mod Tests
use chrome_live.Base.{
  ℕ, ◌+◌, Bool, true, false, Option, none, some, List, [], ◌∷◌, ◌++◌, get_or, nat_beq, leb,
  if◌then◌else◌,
}
use chrome_live.Base.Text.{Text, codes, split_lines}
use chrome_live.Base.Exec.{Exception, Outcome, Result, ok, err}

-- `_DEFAULT_PATH`
abbrev pub default_path : Text
default_path = codes "/tmp/browser-trace-logs.jsonl"

-- `logging.DEBUG`
abbrev pub debug_level : ℕ
debug_level = 10

pub data Sink : Type 0 where
  console telemetry other root : Sink
  file : Text → Sink

-- A handler object under its number; `marked` is the attribute that `configure` sets.
pub record Handler : Type 0 where
  pub id : ℕ
  pub sink : Sink
  pub level : ℕ
  pub marked : Bool

-- The global `_path`, the logger with its effective level, the number of the next handler, and the handlers that were closed.
pub record Logging : Type 0 where
  pub path : Text
  pub handlers : List Handler
  pub level : ℕ
  pub propagate : Bool
  pub made : ℕ
  pub closed : List Handler

-- `logger.removeHandler`
unfoldable pub remove_handler : ℕ → List Handler → List Handler
remove_handler id [] = []
remove_handler id (h ∷ hs) =
    let rest = remove_handler id hs in if nat_beq h.id id then hs else h ∷ rest

-- `logger.addHandler`
abbrev pub add_handler : Handler → Logging → Logging
add_handler h s = record s { handlers = s.handlers ++ h ∷ [] }

abbrev pub drop_handler : Handler → Logging → Logging
unfolding remove_handler
drop_handler h s = record s {
  handlers = remove_handler h.id s.handlers;
  closed = s.closed ++ h ∷ [];
}

-- `for handler in list(logger.handlers)`
unfoldable pub drop_marked : List Handler → Logging → Logging
unfolding drop_handler
drop_marked [] s = s
drop_marked (h ∷ hs) s = drop_marked hs (if h.marked then drop_handler h s else s)

-- a handler of the logger's own, with a number of its own
abbrev pub make_handler : Sink → ℕ → Logging → Logging
make_handler sink level s =
    add_handler (record { id = s.made; sink = sink; level = level; marked = true })
      (record s { made = s.made + 1 })

-- the handler for OpenTelemetry, which the caller made with its level
abbrev pub add_otel : Option ℕ → Logging → Logging
add_otel none s = s
add_otel (some level) s = make_handler Sink.telemetry level s

abbrev pub add_sinks : ℕ → Option ℕ → Logging → Logging
add_sinks stdout_level otel s =
    add_otel otel
      (make_handler Sink.console stdout_level (make_handler (Sink.file s.path) debug_level s))

-- how the file's directory was made and the file opened, and what follows
abbrev pub open_sinks : Outcome → ℕ → Option ℕ → Logging → Outcome × Logging
open_sinks (err e) stdout_level otel s = (err e, s)
open_sinks (ok u) stdout_level otel s = (ok u, add_sinks stdout_level otel s)

abbrev pub set_path : Option Text → Logging → Logging
set_path path s = record s { path = get_or path default_path }

abbrev pub set_up : Logging → Logging
set_up s = record s { level = debug_level; propagate = false }

unfoldable pub configure : Option Text → ℕ → Option ℕ → Outcome → Logging → Outcome × Logging
unfolding drop_marked
configure path stdout_level otel opening s =
    let s' = set_path path s in
    open_sinks opening stdout_level otel (set_up (drop_marked s'.handlers s'))

-- the sinks of handlers that take a record of a level
unfoldable pub handle : ℕ → List Handler → List Sink
handle level [] = []
handle level (h ∷ hs) =
    let rest = handle level hs in if leb h.level level then h.sink ∷ rest else rest

-- The sinks to which the logger passes a record of a level: none below its own level, and those of the
-- root logger, `root` here, only if it propagates.
unfoldable pub deliver : ℕ → Logging → List Sink
unfolding handle
deliver level s =
    if leb s.level level
    then handle level s.handlers ++ (if s.propagate then root ∷ [] else [])
    else []

-- What reading the log file gives; its text has no carriage returns.
pub data LogFile : Type 0 where
  absent unreadable : LogFile
  holds : Text → LogFile

module _ {J : Type 0} (loads : Text → Option J) where
  -- `none` where `json.loads` raises a `JSONDecodeError`
  unfoldable pub read_records : List Text → List J
  read_records [] = []
  read_records (line ∷ lines) =
      let rest = read_records lines in elim (loads line) [ none ↦ rest | some r ↦ r ∷ rest ]

  unfoldable pub read_all : LogFile → List J
  unfolding read_records split_lines
  read_all LogFile.absent = []
  read_all LogFile.unreadable = []
  read_all (LogFile.holds content) = read_records (split_lines content)
