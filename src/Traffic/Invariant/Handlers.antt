-- ===== src/Traffic/Invariant/Handlers.antt =====
-- Every handler of traffic.py keeps the accounts balanced, also where `urlsplit` raises.
use chrome_live.Base.{String, Option, none, some, arith, string_key}
use chrome_live.Base.Int.{ℤ}
use chrome_live.Base.Exec.Keeps.{Keeps, keeps_rules}
use chrome_live.Traffic.State.{TabTraffic, InflightRequest, Traffic}
use chrome_live.Traffic.Hosts.{UrlLib}
use chrome_live.Traffic.Requests.{
  bind_request_host, inflight_or_new, receive, on_data_received, host_or_fallback, settle,
  on_loading_finished, retire, on_loading_failed, with_inflight, pop_inflight,
}
use chrome_live.Traffic.Invariant.{IsBalanced, add_bytes-IsBalanced, count_request-IsBalanced}

-- The in-flight table is no part of the accounts.
with_inflight-IsBalanced :
    (rid : String) (r : InflightRequest) (s : Traffic)
    → IsBalanced s
    → IsBalanced (with_inflight rid r s)
with_inflight-IsBalanced rid r s h = ground arith

pop_inflight-IsBalanced : (rid : String) → Keeps IsBalanced (pop_inflight rid)
pop_inflight-IsBalanced rid = record { after = λ s h. ground arith }

ruleset balanced_rules = (
  keeps_rules, with_inflight-IsBalanced, pop_inflight-IsBalanced, add_bytes-IsBalanced,
  count_request-IsBalanced,
)

module _ (lib : UrlLib) where
  pub bind_request_host-IsBalanced :
      (sid rid url : String) → Keeps IsBalanced (bind_request_host lib sid rid url)
  unfolding bind_request_host
  bind_request_host-IsBalanced sid rid url = search balanced_rules

  inflight_or_new-IsBalanced :
      (sid : String) (tab : TabTraffic) (found : Option InflightRequest)
      → Keeps IsBalanced (inflight_or_new lib sid tab found)
  unfolding inflight_or_new
  inflight_or_new-IsBalanced sid tab none = search balanced_rules
  inflight_or_new-IsBalanced sid tab (some r) = search balanced_rules

  receive-IsBalanced :
      (sid rid : String) (n : ℤ) (tab : Option TabTraffic)
      → Keeps IsBalanced (receive lib sid rid n tab)
  unfolding receive
  receive-IsBalanced sid rid n none = search balanced_rules
  receive-IsBalanced sid rid n (some tab) =
      search (balanced_rules, inflight_or_new-IsBalanced) depth 8

  pub on_data_received-IsBalanced :
      (sid rid : String) (n : ℤ) → Keeps IsBalanced (on_data_received lib sid rid n)
  unfolding on_data_received
  on_data_received-IsBalanced sid rid n = search (balanced_rules, receive-IsBalanced)

  host_or_fallback-IsBalanced :
      (tab : TabTraffic) (found : Option InflightRequest)
      → Keeps IsBalanced (host_or_fallback lib tab found)
  unfolding host_or_fallback
  host_or_fallback-IsBalanced tab none = search balanced_rules
  host_or_fallback-IsBalanced tab (some r) = search balanced_rules

  settle-IsBalanced :
      (sid : String) (n : ℤ) (found : Option InflightRequest) (tab : Option TabTraffic)
      → Keeps IsBalanced (settle lib sid n found tab)
  unfolding settle
  settle-IsBalanced sid n found none = search balanced_rules
  settle-IsBalanced sid n found (some tab) =
      search (balanced_rules, host_or_fallback-IsBalanced) depth 8

  pub on_loading_finished-IsBalanced :
      (sid rid : String) (n : ℤ) → Keeps IsBalanced (on_loading_finished lib sid rid n)
  unfolding on_loading_finished
  on_loading_finished-IsBalanced sid rid n = search (balanced_rules, settle-IsBalanced) depth 8

  retire-IsBalanced :
      (sid : String) (found : Option InflightRequest) (tab : Option TabTraffic)
      → Keeps IsBalanced (retire lib sid found tab)
  unfolding retire
  retire-IsBalanced sid found none = search balanced_rules
  retire-IsBalanced sid found (some tab) =
      search (balanced_rules, host_or_fallback-IsBalanced) depth 8

  pub on_loading_failed-IsBalanced :
      (sid rid : String) → Keeps IsBalanced (on_loading_failed lib sid rid)
  unfolding on_loading_failed
  on_loading_failed-IsBalanced sid rid = search (balanced_rules, retire-IsBalanced) depth 8
