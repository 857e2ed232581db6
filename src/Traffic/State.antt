-- ===== src/Traffic/State.antt =====
-- The module's globals, dataclasses and limits (browser-trace/traffic.py). Counters that only grow
-- from zero are naturals. An ISO time stamp is a text, an argument of what asks for the time.
use chrome_live.Base.{ℕ, String, Option, List, []}
use chrome_live.Dict.{Dict}

-- `_TOP_HOSTS`
abbrev pub top_hosts_limit : ℕ
top_hosts_limit = 10

-- `_CLOSED_TAB_HISTORY`
abbrev pub closed_tab_history : ℕ
closed_tab_history = 50

-- `_MAX_TRACKED_HOSTS`
abbrev pub max_tracked_hosts : ℕ
max_tracked_hosts = 2000

abbrev pub overflow_host : String
overflow_host = "(overflow)"

abbrev pub unknown_host : String
unknown_host = "(unknown)"

pub record HostTotals : Type 0 where
  pub bytes_received : ℕ
  pub requests : ℕ

abbrev pub Hosts : Type 0
Hosts = Dict String HostTotals

pub record TabTraffic : Type 0 where
  pub target_id : String
  pub session_id : String
  pub url : String
  pub started_at : String
  pub bytes_received : ℕ
  pub requests : ℕ
  pub by_host : Hosts
  pub closed_at : Option String
  pub reported_bytes : ℕ

pub record InflightRequest : Type 0 where
  pub session_id : String
  pub host : String
  pub counted : ℕ

-- `_tab_by_session`, `_closed_tabs`, `_inflight` and the process-wide rollups.
pub record Traffic : Type 0 where
  pub tab_by_session : Dict String TabTraffic
  pub closed_tabs : List TabTraffic
  pub inflight : Dict String InflightRequest
  pub host_totals : Hosts
  pub total_bytes : ℕ
  pub total_requests : ℕ
  pub closed_tab_count : ℕ

-- What the module holds when it has been imported.
abbrev pub initial : Traffic
initial = record {
  tab_by_session = [];
  closed_tabs = [];
  inflight = [];
  host_totals = [];
  total_bytes = 0;
  total_requests = 0;
  closed_tab_count = 0;
}
