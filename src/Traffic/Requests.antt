-- ===== src/Traffic/Requests.antt =====
-- The request handlers of browser-trace/traffic.py. `tab` and `inflight` in the source are the
-- objects in the two dicts, so a change of theirs is a change at their key.
use chrome_live.Base.{ℕ, ◌+◌, String, Option, none, some, ◌==◌, string_key, if◌then◌else◌}
use chrome_live.Base.Int.{ℤ, pos, pos_part, ◌-ℤ◌, leb_ℤ}
use chrome_live.Base.Exec.{Exec, ok, pure, lift, gets, modify_state, ◌>>=◌, ◌>>◌}
use chrome_live.Dict.{lookup, insert, erase, modify}
use chrome_live.Traffic.State.{HostTotals, TabTraffic, InflightRequest, Traffic}
use chrome_live.Traffic.Hosts.{UrlLib, host_of, fallback_host, bucket}

abbrev pub add_to_host : ℕ → HostTotals → HostTotals
add_to_host n t = record t { bytes_received = t.bytes_received + n }

abbrev pub count_on_host : HostTotals → HostTotals
count_on_host t = record t { requests = t.requests + 1 }

abbrev pub add_to_tab : String → ℕ → TabTraffic → TabTraffic
add_to_tab host n tab = record tab {
  bytes_received = tab.bytes_received + n;
  by_host = bucket tab.by_host host (add_to_host n);
}

abbrev pub count_on_tab : String → TabTraffic → TabTraffic
count_on_tab host tab = record tab {
  requests = tab.requests + 1;
  by_host = bucket tab.by_host host count_on_host;
}

-- `_add_bytes`, on the tab of a session
unfoldable pub add_bytes : String → String → ℤ → Traffic → Traffic
add_bytes sid host n s = if leb_ℤ n (pos 0) then s else record s {
  tab_by_session = modify sid (add_to_tab host (pos_part n)) s.tab_by_session;
  host_totals = bucket s.host_totals host (add_to_host (pos_part n));
  total_bytes = s.total_bytes + pos_part n;
}

-- `_count_request`, on the tab of a session
unfoldable pub count_request : String → String → Traffic → Traffic
count_request sid host s = record s {
  tab_by_session = modify sid (count_on_tab host) s.tab_by_session;
  host_totals = bucket s.host_totals host count_on_host;
  total_requests = s.total_requests + 1;
}

abbrev pub with_inflight : String → InflightRequest → Traffic → Traffic
with_inflight rid r s = record s { inflight = insert rid r s.inflight }

-- `_inflight.pop(request_id, None)`
abbrev pub pop_inflight : String → Exec Traffic (Option InflightRequest)
pop_inflight rid s = (ok (lookup rid s.inflight), record s { inflight = erase rid s.inflight })

-- the two arms of `bind_request_host` on `inflight is None`
abbrev pub bound : String → String → Option InflightRequest → InflightRequest
bound sid host none = record { session_id = sid; host = host; counted = 0 }
bound sid host (some r) = record r { host = host }

abbrev pub counted_or_zero : Option InflightRequest → ℕ
counted_or_zero none = 0
counted_or_zero (some r) = r.counted

module _ (lib : UrlLib) where
  unfoldable pub bind_request_host : String → String → String → Exec Traffic Unit
  bind_request_host sid rid url = if rid == "" then pure tt else do
    found ← gets (λ s. lookup rid s.inflight)
    host ← lift (host_of lib url)
    modify_state (with_inflight rid (bound sid host found))

  -- the entry that is there, or a new one under the tab's own host
  unfoldable pub inflight_or_new :
      String → TabTraffic → Option InflightRequest → Exec Traffic InflightRequest
  inflight_or_new sid tab (some r) = pure r
  inflight_or_new sid tab none = do
    host ← lift (fallback_host lib tab)
    pure (record { session_id = sid; host = host; counted = 0 })

  unfoldable pub receive : String → String → ℤ → Option TabTraffic → Exec Traffic Unit
  unfolding inflight_or_new
  receive sid rid encoded_length none = pure tt
  receive sid rid encoded_length (some tab) = do
    found ← gets (λ s. lookup rid s.inflight)
    r ← inflight_or_new sid tab found
    modify_state (with_inflight rid (record r { counted = r.counted + pos_part encoded_length }))
    modify_state (add_bytes sid r.host encoded_length)

  unfoldable pub on_data_received : String → String → ℤ → Exec Traffic Unit
  unfolding receive
  on_data_received sid rid encoded_length = do
    tab ← gets (λ s. lookup sid s.tab_by_session)
    receive sid rid encoded_length tab

  unfoldable pub host_or_fallback : TabTraffic → Option InflightRequest → Exec Traffic String
  host_or_fallback tab (some r) = pure r.host
  host_or_fallback tab none = lift (fallback_host lib tab)

  unfoldable pub settle :
      String → ℤ → Option InflightRequest → Option TabTraffic → Exec Traffic Unit
  unfolding host_or_fallback
  settle sid encoded_total found none = pure tt
  settle sid encoded_total found (some tab) = do
    host ← host_or_fallback tab found
    modify_state
        (add_bytes sid host (pos (pos_part (encoded_total -ℤ pos (counted_or_zero found)))))
    modify_state (count_request sid host)

  unfoldable pub on_loading_finished : String → String → ℤ → Exec Traffic Unit
  unfolding settle
  on_loading_finished sid rid encoded_total = do
    found ← pop_inflight rid
    tab ← gets (λ s. lookup sid s.tab_by_session)
    settle sid encoded_total found tab

  unfoldable pub retire : String → Option InflightRequest → Option TabTraffic → Exec Traffic Unit
  unfolding host_or_fallback
  retire sid found none = pure tt
  retire sid found (some tab) = do
    host ← host_or_fallback tab found
    modify_state (count_request sid host)

  unfoldable pub on_loading_failed : String → String → Exec Traffic Unit
  unfolding retire
  on_loading_failed sid rid = do
    found ← pop_inflight rid
    tab ← gets (λ s. lookup sid s.tab_by_session)
    retire sid found tab
