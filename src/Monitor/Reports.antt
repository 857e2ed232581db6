-- ===== src/Monitor/Reports.antt =====
-- `tab_traffic` events in browser-trace/main.py.
use chrome_live.Base.{
  ◌-◌, String, Bool, true, false, some, List, [], ◌∷◌, length, nat_beq, string_key, if◌then◌else◌,
}
use chrome_live.Dict.{Dict}
use chrome_live.Traffic.State.{TabTraffic, Traffic, top_hosts_limit}
use chrome_live.Traffic.Ranking.{top_hosts}
use chrome_live.Traffic.Tabs.{mark_reported, close_all}
use chrome_live.Monitor.State.{TrafficReport, LogEvent, Monitor}
use chrome_live.Monitor.Emit.{no_attributes, emit_cdp_event}

abbrev pub traffic_report : TabTraffic → Bool → TrafficReport
traffic_report tab final = record {
  bytes_received = tab.bytes_received;
  bytes_delta = tab.bytes_received - tab.reported_bytes;
  requests = tab.requests;
  host_count = length tab.by_host;
  hosts = top_hosts tab top_hosts_limit;
  final = final;
}

abbrev pub traffic_event : TabTraffic → Bool → LogEvent
traffic_event tab final = record no_attributes {
  event = "tab_traffic";
  tab_id = some tab.target_id;
  tab_url = some tab.url;
  extra = some (traffic_report tab final);
}

-- `emit_tab_traffic`, with the write to the tab. A tab that has been closed is in no table of open
-- tabs, and nothing reads its `reported_bytes` again, so `write` is then no change.
unfoldable pub emit_tab_traffic : (Traffic → Traffic) → TabTraffic → Bool → Monitor → Monitor
unfolding emit_cdp_event
emit_tab_traffic write tab final m =
    emit_cdp_event (traffic_event tab final) (record m { traffic = write m.traffic })

unfoldable pub report_tab : String → TabTraffic → Monitor → Monitor
unfolding emit_tab_traffic
report_tab key tab m =
    if nat_beq tab.bytes_received tab.reported_bytes
    then m
    else emit_tab_traffic (mark_reported key) tab false m

unfoldable pub report_each : Dict String TabTraffic → Monitor → Monitor
unfolding report_tab
report_each [] m = m
report_each ((key, tab) ∷ rest) m = report_each rest (report_tab key tab m)

-- One round of the loop of `report_traffic`.
unfoldable pub report_traffic : Monitor → Monitor
unfolding report_each
report_traffic m = report_each m.traffic.tab_by_session m

unfoldable pub flush_closed_tab : TabTraffic → Monitor → Monitor
unfolding emit_tab_traffic
flush_closed_tab tab m =
    if nat_beq tab.bytes_received 0 then m else emit_tab_traffic (λ s. s) tab true m

-- `flush_closed_tabs`, on the tabs that are not `None`
unfoldable pub flush_closed_tabs : List TabTraffic → Monitor → Monitor
unfolding flush_closed_tab
flush_closed_tabs [] m = m
flush_closed_tabs (tab ∷ rest) m = flush_closed_tabs rest (flush_closed_tab tab m)

-- `flush_closed_tabs(*traffic.close_all())`
unfoldable pub flush_all : (String → String) → Monitor → Monitor
unfolding flush_closed_tabs
flush_all clock m =
    let (tabs, traffic) = close_all clock m.traffic in
    flush_closed_tabs tabs (record m { traffic = traffic })
