-- ===== src/Config.antt =====
-- browser-trace/main.py: `Config` and `Config.from_file`, on the text of a file. `str.upper` and `int` are the fields of `TextLib`.
pub mod RoundTrip
pub mod Defaults
pub mod Applying
pub mod Watcher
pub mod Tests
use chrome_live.Base.{
  ℕ, String, Bool, true, false, ◌&&◌, not, Option, none, some, List, [], ◌∷◌, get_or, nat_beq,
  if◌then◌else◌,
}
use chrome_live.Base.Int.{ℤ}
use chrome_live.Base.Text.{
  Text, codes, text_key, starts, strip, strip_by, has_char, split_once, split_lines,
  universal_newlines,
}
use chrome_live.Base.Exec.{value_error, os_error, Result, ok, err}
use chrome_live.Dict.{Dict, lookup, insert}

-- `int` of a text is `none` where it raises a `ValueError`.
pub record TextLib : Type 0 where
  pub upper : Text → Text
  pub to_int : Text → Option ℤ

pub record Config : Type 0 where
  pub service_name : Text
  pub environment : Text
  pub otlp_endpoint : Text
  pub otlp_headers : Text
  pub cdp_host : Text
  pub cdp_port : ℤ
  pub traceparent : Option Text
  pub log_level : Text
  pub recording_dir : Text
  pub event_log_path : Text
  pub http_host : Text
  pub http_port : ℤ

-- `Config()`
unfoldable pub default_config : Config
default_config = record {
  service_name = codes "browser-trace";
  environment = codes "local";
  otlp_endpoint = [];
  otlp_headers = [];
  cdp_host = codes "127.0.0.1";
  cdp_port = ℤ.pos 9222;
  traceparent = none;
  log_level = codes "INFO";
  recording_dir = [];
  event_log_path = [];
  http_host = codes "0.0.0.0";
  http_port = ℤ.pos 8088;
}

-- `'='`, `'#'` and the two quotes
abbrev pub equals : ℕ
equals = 61

abbrev pub hash : ℕ
hash = 35

abbrev pub double_quote : ℕ
double_quote = 34

abbrev pub single_quote : ℕ
single_quote = 39

-- `value.strip().strip('"').strip("'")`
unfoldable pub unquote : Text → Text
unfolding strip_by
unquote value = strip_by (nat_beq single_quote) (strip_by (nat_beq double_quote) (strip value))

unfoldable pub trimmed : Option (Text × Text) → Option (Text × Text)
unfolding strip_by unquote
trimmed none = none
trimmed (some (key, value)) = some (strip key, unquote value)

-- The key and the value that a line assigns.
unfoldable pub parse_line : Text → Option (Text × Text)
unfolding strip_by has_char split_once trimmed
parse_line raw =
    let line = strip raw in
    if has_char equals line && not (starts (nat_beq hash) line)
    then trimmed (split_once equals line)
    else none

unfoldable pub assign : Option (Text × Text) → Dict Text Text → Dict Text Text
assign none values = values
assign (some (key, value)) values = insert key value values

-- `for line in f`
unfoldable pub read_lines : List Text → Dict Text Text → Dict Text Text
unfolding parse_line assign
read_lines [] values = values
read_lines (line ∷ rest) values = read_lines rest (assign (parse_line line) values)

-- the lines that the iterator of a text file gives
unfoldable pub file_lines : Text → List Text
unfolding split_lines universal_newlines
file_lines content = split_lines (universal_newlines content)

-- `tp if tp else None`
abbrev pub non_empty_text : Text → Option Text
non_empty_text [] = none
non_empty_text (c ∷ cs) = some (c ∷ cs)

-- What `open` and the reading of the file give.
pub data File : Type 0 where
  missing unreadable : File
  content : Text → File

unfoldable pub get : String → String → Dict Text Text → Text
unfolding lookup
get key default values = get_or (lookup (codes key) values) (codes default)

module _ (lib : TextLib) where
  unfoldable pub build : Dict Text Text → Option ℤ → Option ℤ → Result Config
  unfolding get
  build values none http_port = err value_error
  build values (some cdp_port) none = err value_error
  build values (some cdp_port) (some http_port) = ok (record {
    service_name = get "OTEL_SERVICE_NAME" "browser-trace" values;
    environment = get "ENVIRONMENT" "local" values;
    otlp_endpoint = get "OTEL_EXPORTER_OTLP_ENDPOINT" "" values;
    otlp_headers = get "OTEL_EXPORTER_OTLP_HEADERS" "" values;
    cdp_host = get "CDP_HOST" "127.0.0.1" values;
    cdp_port = cdp_port;
    traceparent = non_empty_text (get "TRACEPARENT" "" values);
    log_level = lib.upper (get "LOG_LEVEL" "INFO" values);
    recording_dir = get "RECORDING_DIR" "" values;
    event_log_path = get "EVENT_LOG_PATH" "" values;
    http_host = get "HTTP_HOST" "0.0.0.0" values;
    http_port = http_port;
  })

  unfoldable pub from_values : Dict Text Text → Result Config
  unfolding get build
  from_values values =
      build values (lib.to_int (get "CDP_PORT" "9222" values))
        (lib.to_int (get "BROWSER_TRACE_PORT" "8088" values))

  unfoldable pub from_file : File → Result Config
  unfolding from_values read_lines file_lines
  from_file missing = from_values []
  from_file unreadable = err os_error
  from_file (content text) = from_values (read_lines (file_lines text) [])
