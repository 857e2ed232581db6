-- ===== src/Traffic/Keyed.antt =====
-- The session and request tables stay dicts: no session and no request stands in them twice.
use chrome_live.Base.{
  String, Option, none, some, List, [], ◌∷◌, arith, ◌==◌, string_key, Bool-cases, Option-cases, inl,
  inr,
}
use chrome_live.Base.Int.{ℤ, pos_part}
use chrome_live.Base.Exec.Keeps.{Keeps, keeps_rules}
use chrome_live.Dict.{lookup, contains, keys_where, keys}
use chrome_live.Dict.Keys.{IsDict, insert-IsDict, erase-IsDict, modify-IsDict, erase_each-IsDict}
use chrome_live.Traffic.State.{TabTraffic, InflightRequest, Traffic}
use chrome_live.Traffic.Hosts.{UrlLib}
use chrome_live.Traffic.Requests.{
  add_bytes, count_request, add_to_tab, count_on_tab, bind_request_host, inflight_or_new, receive,
  on_data_received, host_or_fallback, settle, on_loading_finished, retire, on_loading_failed,
  with_inflight, pop_inflight,
}
use chrome_live.Traffic.Tabs.{
  open_tab, set_tab_url, mark_reported, close_tab, close_each, close_all, of_session,
}
use chrome_live.Traffic.Invariant.Runs.{
  Call, opened, moved, bound, data_received, finished, failed, reported, closed, all_closed, call,
  run,
}

pub record IsKeyed (s : Traffic) : Type 0 where
  pub tabs : IsDict s.tab_by_session
  pub inflight : IsDict s.inflight

with_inflight-IsKeyed :
    (rid : String) (r : InflightRequest) (s : Traffic) → IsKeyed s → IsKeyed (with_inflight rid r s)
with_inflight-IsKeyed rid r s h = record {
  tabs = h.tabs;
  inflight = insert-IsDict rid r s.inflight h.inflight;
}

pop_inflight-IsKeyed : (rid : String) → Keeps IsKeyed (pop_inflight rid)
pop_inflight-IsKeyed rid = record {
  after = λ s h. record { tabs = h.tabs; inflight = erase-IsDict rid s.inflight h.inflight };
}

add_bytes-IsKeyed :
    (sid host : String) (n : ℤ) (s : Traffic) → IsKeyed s → IsKeyed (add_bytes sid host n s)
unfolding add_bytes
add_bytes-IsKeyed sid host n s h =
    ground (arith, modify-IsDict sid (add_to_tab host (pos_part n)) s.tab_by_session h.tabs)

count_request-IsKeyed :
    (sid host : String) (s : Traffic) → IsKeyed s → IsKeyed (count_request sid host s)
unfolding count_request
count_request-IsKeyed sid host s h = record {
  tabs = modify-IsDict sid (count_on_tab host) s.tab_by_session h.tabs;
  inflight = h.inflight;
}

ruleset keyed_rules = (
  keeps_rules, with_inflight-IsKeyed, pop_inflight-IsKeyed, add_bytes-IsKeyed,
  count_request-IsKeyed,
)

module _ (lib : UrlLib) where
  new-IsKeyed :
      (sid : String) (tab : TabTraffic) (found : Option InflightRequest)
      → Keeps IsKeyed (inflight_or_new lib sid tab found)
  unfolding inflight_or_new
  new-IsKeyed sid tab none = search keyed_rules
  new-IsKeyed sid tab (some r) = search keyed_rules

  receive-IsKeyed :
      (sid rid : String) (n : ℤ) (tab : Option TabTraffic)
      → Keeps IsKeyed (receive lib sid rid n tab)
  unfolding receive
  receive-IsKeyed sid rid n none = search keyed_rules
  receive-IsKeyed sid rid n (some tab) = search (keyed_rules, new-IsKeyed) depth 8

  host-IsKeyed :
      (tab : TabTraffic) (found : Option InflightRequest)
      → Keeps IsKeyed (host_or_fallback lib tab found)
  unfolding host_or_fallback
  host-IsKeyed tab none = search keyed_rules
  host-IsKeyed tab (some r) = search keyed_rules

  settle-IsKeyed :
      (sid : String) (n : ℤ) (found : Option InflightRequest) (tab : Option TabTraffic)
      → Keeps IsKeyed (settle lib sid n found tab)
  unfolding settle
  settle-IsKeyed sid n found none = search keyed_rules
  settle-IsKeyed sid n found (some tab) = search (keyed_rules, host-IsKeyed) depth 8

  retire-IsKeyed :
      (sid : String) (found : Option InflightRequest) (tab : Option TabTraffic)
      → Keeps IsKeyed (retire lib sid found tab)
  unfolding retire
  retire-IsKeyed sid found none = search keyed_rules
  retire-IsKeyed sid found (some tab) = search (keyed_rules, host-IsKeyed) depth 8

  ruleset handler_rules = (keyed_rules, receive-IsKeyed, settle-IsKeyed, retire-IsKeyed)

  pub bind_request_host-IsKeyed :
      (sid rid url : String) → Keeps IsKeyed (bind_request_host lib sid rid url)
  unfolding bind_request_host
  bind_request_host-IsKeyed sid rid url = search keyed_rules

  pub on_data_received-IsKeyed :
      (sid rid : String) (n : ℤ) → Keeps IsKeyed (on_data_received lib sid rid n)
  unfolding on_data_received
  on_data_received-IsKeyed sid rid n = search (keyed_rules, receive-IsKeyed)

  pub on_loading_finished-IsKeyed :
      (sid rid : String) (n : ℤ) → Keeps IsKeyed (on_loading_finished lib sid rid n)
  unfolding on_loading_finished
  on_loading_finished-IsKeyed sid rid n = search (keyed_rules, settle-IsKeyed) depth 8

  pub on_loading_failed-IsKeyed : (sid rid : String) → Keeps IsKeyed (on_loading_failed lib sid rid)
  unfolding on_loading_failed
  on_loading_failed-IsKeyed sid rid = search (keyed_rules, retire-IsKeyed) depth 8

pub open_tab-IsKeyed :
    (now sid target_id url : String) (s : Traffic)
    → IsKeyed s
    → IsKeyed (open_tab now sid target_id url s)
unfolding open_tab
open_tab-IsKeyed now sid target_id url s h = elim (Bool-cases (contains sid s.tab_by_session)) [
  | inl known ↦ rw known h
  | inr new ↦
      rw new (record { tabs = insert-IsDict sid _ s.tab_by_session h.tabs; inflight = h.inflight })
]

pub set_tab_url-IsKeyed :
    (sid url : String) (s : Traffic) → IsKeyed s → IsKeyed (set_tab_url sid url s)
unfolding set_tab_url
set_tab_url-IsKeyed sid url s h = elim (Bool-cases (url == "")) [
  | inl empty ↦ rw empty h
  | inr given ↦
      rw given
        (record { tabs = modify-IsDict sid _ s.tab_by_session h.tabs; inflight = h.inflight })
]

pub mark_reported-IsKeyed : (sid : String) (s : Traffic) → IsKeyed s → IsKeyed (mark_reported sid s)
unfolding mark_reported
mark_reported-IsKeyed sid s h = record {
  tabs = modify-IsDict sid _ s.tab_by_session h.tabs;
  inflight = h.inflight;
}

pub close_tab-IsKeyed :
    (now sid : String) (s : Traffic) → IsKeyed s → IsKeyed (close_tab now sid s).1
unfolding close_tab
close_tab-IsKeyed now sid s h =
    let tabs = erase-IsDict sid s.tab_by_session h.tabs in
    let inflight =
      erase_each-IsDict (keys_where (of_session sid) s.inflight) s.inflight h.inflight in
    elim (Option-cases (lookup sid s.tab_by_session)) [
      | inl unknown ↦ rw unknown (record { tabs = tabs; inflight = inflight })
      | inr (tab, found) ↦ rw found (record { tabs = tabs; inflight = inflight })
    ]

close_each-IsKeyed :
    (clock : String → String) (sids : List String) (s : Traffic)
    → IsKeyed s
    → IsKeyed (close_each clock sids s).1
unfolding close_each
close_each-IsKeyed clock [] s h = h
close_each-IsKeyed clock (sid ∷ sids) s h =
    close_each-IsKeyed clock sids (close_tab (clock sid) sid s).1
      (close_tab-IsKeyed (clock sid) sid s h)

call-IsKeyed : (lib : UrlLib) (c : Call) (s : Traffic) → IsKeyed s → IsKeyed (call lib c s)
unfolding call close_all
call-IsKeyed lib (opened now sid target_id url) s h = open_tab-IsKeyed now sid target_id url s h
call-IsKeyed lib (moved sid url) s h = set_tab_url-IsKeyed sid url s h
call-IsKeyed lib (bound sid rid url) s h = (bind_request_host-IsKeyed lib sid rid url).after s h
call-IsKeyed lib (data_received sid rid n) s h = (on_data_received-IsKeyed lib sid rid n).after s h
call-IsKeyed lib (finished sid rid n) s h = (on_loading_finished-IsKeyed lib sid rid n).after s h
call-IsKeyed lib (failed sid rid) s h = (on_loading_failed-IsKeyed lib sid rid).after s h
call-IsKeyed lib (reported sid) s h = mark_reported-IsKeyed sid s h
call-IsKeyed lib (closed now sid) s h = close_tab-IsKeyed now sid s h
call-IsKeyed lib (all_closed clock) s h = close_each-IsKeyed clock (keys s.tab_by_session) s h

-- After any sequence of calls the two tables are dicts.
pub run-IsKeyed : (lib : UrlLib) (cs : List Call) (s : Traffic) → IsKeyed s → IsKeyed (run lib cs s)
unfolding run
run-IsKeyed lib [] s h = h
run-IsKeyed lib (c ∷ cs) s h = run-IsKeyed lib cs (call lib c s) (call-IsKeyed lib c s h)
