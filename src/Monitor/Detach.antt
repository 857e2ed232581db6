-- ===== src/Monitor/Detach.antt =====
-- The end of a session: what the `Target.detachedFromTarget` arm of browser-trace/main.py leaves.
use chrome_live.Base.{
  String, ◌≡◌, refl, none, List, [], ◌∷◌, ◌++◌, ◌==◌, string_key, Bool-cases, inl, inr,
  if◌then◌else◌, nat_beq, ◌∙◌,
}
use chrome_live.Dict.{lookup}
use chrome_live.Dict.Laws.{lookup-erase}
use chrome_live.Dict.Keys.{IsDict, unless, lookup-sweep}
use chrome_live.Traffic.State.{TabTraffic}
use chrome_live.Traffic.Tabs.{close_tab, present, of_session}
use chrome_live.Traffic.Closing.{close_tab_lem}
use chrome_live.Monitor.State.{Monitor, Env, stop}
use chrome_live.Monitor.Reports.{flush_closed_tab, flush_closed_tabs, emit_tab_traffic}
use chrome_live.Monitor.Emit.{emit_cdp_event}
use chrome_live.Monitor.Arms.{on_detached, flush_tab, drop_session, request_of}

-- Two states that differ in their logs at most.
record SameTables (m m' : Monitor) : Type 0 where
  sessions : m'.sessions ≡ m.sessions
  network_requests : m'.network_requests ≡ m.network_requests
  traffic : m'.traffic ≡ m.traffic
  recorder : m'.recorder ≡ m.recorder

flush_closed_tab-SameTables :
    (tab : TabTraffic) (m : Monitor) → SameTables m (flush_closed_tab tab m)
unfolding flush_closed_tab emit_tab_traffic emit_cdp_event
flush_closed_tab-SameTables tab m = elim (Bool-cases (nat_beq tab.bytes_received 0)) [
  | inl nothing ↦
      rw nothing
        (record { sessions = refl; network_requests = refl; traffic = refl; recorder = refl })
  | inr some_bytes ↦
      rw some_bytes
        (record { sessions = refl; network_requests = refl; traffic = refl; recorder = refl })
]

flush_closed_tabs-SameTables :
    (tabs : List TabTraffic) (m : Monitor) → SameTables m (flush_closed_tabs tabs m)
unfolding flush_closed_tabs
flush_closed_tabs-SameTables [] m = record {
  sessions = refl;
  network_requests = refl;
  traffic = refl;
  recorder = refl;
}
flush_closed_tabs-SameTables (tab ∷ tabs) m =
    let one = flush_closed_tab-SameTables tab m in
    let rest = flush_closed_tabs-SameTables tabs (flush_closed_tab tab m) in
    record {
      sessions = rest.sessions ∙ one.sessions;
      network_requests = rest.network_requests ∙ one.network_requests;
      traffic = rest.traffic ∙ one.traffic;
      recorder = rest.recorder ∙ one.recorder;
    }

-- Where no request stands in a table twice, the end of a session forgets the session, its requests
-- and its open tab, keeps every other session, request and tab, and stops the session's recording.
pub on_detached_lem :
    (env : Env) (sid : String) (m : Monitor)
    → IsDict m.network_requests
    → IsDict m.traffic.inflight
    → let m' = (on_detached env sid m).1 in
      ((j : String) → lookup j m'.sessions ≡ (if sid == j then none else lookup j m.sessions))
      × ((rid : String)
          → lookup rid m'.network_requests
            ≡ unless (request_of sid) (lookup rid m.network_requests))
      × ((j : String)
          → lookup j m'.traffic.tab_by_session
            ≡ (if sid == j then none else lookup j m.traffic.tab_by_session))
      × ((rid : String)
          → lookup rid m'.traffic.inflight
            ≡ unless (of_session sid) (lookup rid m.traffic.inflight))
      × (m'.recorder ≡ m.recorder ++ stop sid ∷ [])
unfolding on_detached flush_tab
on_detached_lem env sid m requests inflight =
    let (tab, traffic) = close_tab env.now sid m.traffic in
    let same =
      flush_closed_tabs-SameTables (present tab [])
        (record (drop_session sid m) { traffic = traffic }) in
    let closed = close_tab_lem env.now sid m.traffic inflight in
    (
      λ j. rw same.sessions (lookup-erase sid j m.sessions),
      λ rid.
          rw same.network_requests (lookup-sweep (request_of sid) rid m.network_requests requests),
      λ j. rw same.traffic (closed.1 j),
      λ rid. rw same.traffic (closed.2 rid),
      rw same.recorder refl,
    )
