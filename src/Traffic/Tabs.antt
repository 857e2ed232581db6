-- ===== src/Traffic/Tabs.antt =====
-- Opening and closing of tabs in browser-trace/traffic.py.
use chrome_live.Base.{
  ℕ, Bool, ◌+◌, ◌-◌, String, Option, none, some, List, [], ◌∷◌, ◌++◌, ◌==◌, string_key, length,
  drop, if◌then◌else◌,
}
use chrome_live.Dict.{lookup, insert, erase, contains, modify, keys, values, erase_each, keys_where}
use chrome_live.Traffic.State.{TabTraffic, InflightRequest, Traffic, closed_tab_history}

-- `now` is the time stamp that the call reads.
unfoldable pub open_tab : String → String → String → String → Traffic → Traffic
open_tab now sid target_id url s = if contains sid s.tab_by_session then s else record s {
  tab_by_session =
      insert sid
        (record {
          target_id = target_id;
          session_id = sid;
          url = url;
          started_at = now;
          bytes_received = 0;
          requests = 0;
          by_host = [];
          closed_at = none;
          reported_bytes = 0;
        })
        s.tab_by_session;
}

unfoldable pub set_tab_url : String → String → Traffic → Traffic
set_tab_url sid url s =
    if url == ""
    then s
    else record s { tab_by_session = modify sid (λ tab. record tab { url = url }) s.tab_by_session }

-- `deque(maxlen=n).append(x)`
unfoldable pub push_bounded {ℓ} : {A : Type ℓ} → ℕ → List A → A → List A
push_bounded n xs x = drop (length (xs ++ x ∷ []) - n) (xs ++ x ∷ [])

-- the requests in flight of a session
abbrev pub of_session : String → InflightRequest → Bool
of_session sid info = info.session_id == sid

unfoldable pub finish_tab : String → Option TabTraffic → Traffic → Option TabTraffic × Traffic
unfolding push_bounded
finish_tab now none s = (none, s)
finish_tab now (some tab) s =
    let closed : TabTraffic = record tab { closed_at = some now } in
    (
      some closed,
      record s {
        closed_tabs = push_bounded closed_tab_history s.closed_tabs closed;
        closed_tab_count = s.closed_tab_count + 1;
      },
    )

unfoldable pub close_tab : String → String → Traffic → Option TabTraffic × Traffic
unfolding finish_tab
close_tab now sid s = finish_tab now (lookup sid s.tab_by_session) (record s {
  tab_by_session = erase sid s.tab_by_session;
  inflight = erase_each (keys_where (of_session sid) s.inflight) s.inflight;
})

abbrev pub present : Option TabTraffic → List TabTraffic → List TabTraffic
present none tabs = tabs
present (some tab) tabs = tab ∷ tabs

-- `clock` gives the time stamp of each `close_tab`.
unfoldable pub close_each : (String → String) → List String → Traffic → List TabTraffic × Traffic
unfolding close_tab
close_each clock [] s = ([], s)
close_each clock (sid ∷ sids) s =
    let (closed, s') = close_tab (clock sid) sid s in
    let (rest, s'') = close_each clock sids s' in (present closed rest, s'')

unfoldable pub close_all : (String → String) → Traffic → List TabTraffic × Traffic
unfolding close_each
close_all clock s = close_each clock (keys s.tab_by_session) s

unfoldable pub open_tabs : Traffic → List TabTraffic
open_tabs s = values s.tab_by_session

-- The write of `emit_tab_traffic` in browser-trace/main.py to the open tab of a session.
unfoldable pub mark_reported : String → Traffic → Traffic
mark_reported sid s = record s {
  tab_by_session =
      modify sid (λ tab. record tab { reported_bytes = tab.bytes_received }) s.tab_by_session;
}
