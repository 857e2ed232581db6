-- ===== src/Monitor/State.antt =====
-- The globals of browser-trace/main.py that the event loop works on, and what it does to the
-- outside: log events, calls of the recorder, tasks. Time stamps of log events are left out.
use chrome_live.Base.{ℕ, String, Bool, Option, List, []}
use chrome_live.Base.Exec.{Exception}
use chrome_live.Dict.{Dict}
use chrome_live.Connection.{Connection, fresh}
use chrome_live.Traffic.State.{Traffic}
use chrome_live.Traffic.Hosts.{UrlLib}

-- A response that waits for the main frame to be known.
pub record Pending : Type 0 where
  pub frame_id : String
  pub url : String
  pub status_code : ℕ

-- A value of `sessions`. An absent `pending` or `captcha_reported` is the empty list, an absent
-- `last_url` the empty text, as the code reads them.
pub record Session : Type 0 where
  pub session_id : String
  pub target_id : String
  pub url : String
  pub main_frame_id : Option String
  pub pending : List Pending
  pub last_url : String
  pub captcha_probe_url : Option String
  pub captcha_reported : List String

-- A value of `network_requests`.
pub record NetworkRequest : Type 0 where
  pub url : String
  pub frame_id : String
  pub session_id : String

-- The JSON objects that go over the link, by the part that the program reads or writes.
pub data Payload : Type 0 where
  empty : Payload
  frame_tree : Option String → Payload
  evaluated : Option String → Payload
  params : String → Payload

-- `logging.INFO` and `logging.ERROR`
pub data Level : Type 0 where
  info error : Level

-- The `extra` of a `tab_traffic` event.
pub record TrafficReport : Type 0 where
  pub bytes_received : ℕ
  pub bytes_delta : ℕ
  pub requests : ℕ
  pub host_count : ℕ
  pub hosts : List (String × ℕ)
  pub final : Bool

-- A record that `emit_cdp_event` logs; `none` is an attribute that is not there.
pub record LogEvent : Type 0 where
  pub level : Level
  pub event : String
  pub tab_id : Option String
  pub tab_url : Option String
  pub status_code : Option ℕ
  pub error_text : Option String
  pub is_main_frame : Option Bool
  pub captcha_kind : Option String
  pub extra : Option TrafficReport

-- The calls of `recording` that the event loop makes.
pub data RecorderCall : Type 0 where
  start : String → String → String → RecorderCall
  frame stop : String → RecorderCall
  stop_all : RecorderCall

pub record Monitor : Type 0 where
  pub conn : Connection Payload
  pub sessions : Dict String Session
  pub target_sessions : Dict String String
  pub network_requests : Dict String NetworkRequest
  pub traffic : Traffic
  pub log : List LogEvent
  pub recorder : List RecorderCall
  pub probe_tasks : List (String × String)

-- The state at a connection's start.
abbrev pub connected : Traffic → List LogEvent → List RecorderCall → Monitor
connected traffic log recorder = record {
  conn = fresh Payload;
  sessions = [];
  target_sessions = [];
  network_requests = [];
  traffic = traffic;
  log = log;
  recorder = recorder;
  probe_tasks = [];
}

-- What an event meets outside the source: the URL library, the time, and for each command's method
-- whether the write of the command to the socket raises.
pub record Env : Type 0 where
  pub lib : UrlLib
  pub now : String
  pub write_fault : String → Option Exception
