-- ===== src/Traffic/Tests.antt =====
-- Runs of the traffic accounts, and each theorem at a concrete input.
use mathlib.Core.Option
use mathlib.Core.List.{Perm}
use chrome_live.Base.Sorting.{IsDescending}
use chrome_live.Base.{
  String, ◌≡◌, ◌≤◌, ◌++◌, All, min, length, refl, Option, none, some, List, [], ◌∷◌, map, ◌==◌,
  string_key, if◌then◌else◌,
}
use chrome_live.Base.Int.{ℤ, pos, negsuc, ◌-ℤ◌}
use chrome_live.Dict.{lookup, insert, erase, modify, contains}
use chrome_live.Dict.Keys.{unless}
use chrome_live.Traffic.State.{HostTotals, TabTraffic, Traffic, initial}
use chrome_live.Traffic.Hosts.{UrlLib, SplitUrl, host_of, fallback_host, bucket}
use chrome_live.Traffic.Requests.{
  bind_request_host, on_data_received, on_loading_finished, add_bytes, count_request,
}
use chrome_live.Traffic.Tabs.{open_tab, close_tab, close_all, of_session}
use chrome_live.Traffic.Invariant.{IsBalanced}
use chrome_live.Traffic.Invariant.Runs.{
  Call, opened, bound, data_received, finished, run, accounts_balance,
}
use chrome_live.Traffic.Keyed.{IsKeyed, run-IsKeyed}
use chrome_live.Traffic.Ranking.{entry_bytes, with_bytes, top_hosts, top_hosts_lem}
use chrome_live.Traffic.Closing.{closed_at, closed_entry, close_tab_lem, close_all_lem}

split_sample : String → Option SplitUrl
split_sample url =
    if url == "https://A.example/x"
    then some (record { scheme = "https"; hostname = some "A.example" })
    else if url == "data:,x"
    then some (record { scheme = "data"; hostname = none })
    else none

abbrev sample_lib : UrlLib
sample_lib = record {
  urlsplit = split_sample;
  lower = λ x. if x == "A.example" then "a.example" else x;
}

-- A tab on a page, the page's request with two chunks, a data URL, a URL that does not parse.
abbrev sample_calls : List Call
sample_calls =
    opened "t0" "S" "T" "https://A.example/x"
    ∷ bound "S" "r1" "https://A.example/x"
    ∷ data_received "S" "r1" (pos 700)
    ∷ data_received "S" "r1" (negsuc 4)
    ∷ bound "S" "r2" "data:,x"
    ∷ bound "S" "r3" "http://[::1"
    ∷ finished "S" "r1" (pos 900)
    ∷ []

abbrev sample_state : Traffic
sample_state = run sample_lib sample_calls initial

sample_run :
    (sample_state.total_bytes ≡ 900)
    × (sample_state.total_requests ≡ 1)
    × (lookup "a.example" sample_state.host_totals
        ≡ some (record { bytes_received = 900; requests = 1 }))
    × (lookup "r1" sample_state.inflight ≡ none)
    × (lookup "r2" sample_state.inflight
        ≡ some (record { session_id = "S"; host = "data:"; counted = 0 }))
    × (lookup "r3" sample_state.inflight ≡ none)
unfolding run open_tab bind_request_host on_data_received on_loading_finished add_bytes
    count_request host_of fallback_host bucket split_sample lookup insert erase modify contains ◌-ℤ◌
sample_run = (refl, refl, refl, refl, refl, refl)

accounts_balance_example : IsBalanced (run sample_lib sample_calls initial)
accounts_balance_example = accounts_balance sample_lib sample_calls

abbrev one_request : Traffic
one_request =
    run sample_lib
      (opened "t0" "S" "T" "https://A.example/x" ∷ bound "S" "r1" "https://A.example/x" ∷ [])
      initial

abbrev one_tab : TabTraffic
one_tab = record {
  target_id = "T";
  session_id = "S";
  url = "https://A.example/x";
  started_at = "t0";
  bytes_received = 0;
  requests = 0;
  by_host = [];
  closed_at = none;
  reported_bytes = 0;
}

abbrev two_chunks : List ℤ
two_chunks = pos 700 ∷ negsuc 4 ∷ []

initial-IsKeyed : IsKeyed initial
initial-IsKeyed = record { tabs = tt; inflight = tt }

run-IsKeyed_example : IsKeyed (run sample_lib sample_calls initial)
run-IsKeyed_example = run-IsKeyed sample_lib sample_calls initial initial-IsKeyed

sample-IsKeyed : IsKeyed sample_state
sample-IsKeyed = run-IsKeyed sample_lib sample_calls initial initial-IsKeyed

close_tab_lem_example :
    let (r, s') = close_tab "t1" "S" sample_state in
    (r ≡ Option.map (closed_at "t1") (lookup "S" sample_state.tab_by_session))
    × ((j : String)
        → lookup j s'.tab_by_session
          ≡ (if "S" == j then none else lookup j sample_state.tab_by_session))
    × ((rid : String)
        → lookup rid s'.inflight ≡ unless (of_session "S") (lookup rid sample_state.inflight))
    × (s'.total_bytes ≡ sample_state.total_bytes)
    × (s'.total_requests ≡ sample_state.total_requests)
    × (s'.host_totals ≡ sample_state.host_totals)
close_tab_lem_example = close_tab_lem "t1" "S" sample_state sample-IsKeyed.inflight

close_all_lem_example :
    let (tabs, s') = close_all (λ sid. "t1") sample_state in
    (tabs ≡ map (closed_entry (λ sid. "t1")) sample_state.tab_by_session) × (s'.tab_by_session ≡ [])
close_all_lem_example = close_all_lem (λ sid. "t1") sample_state sample-IsKeyed.tabs

abbrev ranked_tab : TabTraffic
ranked_tab = record {
  target_id = "T";
  session_id = "S";
  url = "https://a.example/";
  started_at = "t0";
  bytes_received = 60;
  requests = 3;
  by_host =
      ("a", record { bytes_received = 10; requests = 1 })
      ∷ ("b", record { bytes_received = 30; requests = 1 })
      ∷ ("c", record { bytes_received = 20; requests = 1 })
      ∷ [];
  closed_at = none;
  reported_bytes = 0;
}

top_hosts_lem_example :
    (kept : List (String × HostTotals)) × (left_out : List (String × HostTotals)) × (top_hosts
        ranked_tab 2
      ≡ map with_bytes kept)
    × (length kept ≡ min 2 (length ranked_tab.by_host))
    × Perm (kept ++ left_out) ranked_tab.by_host
    × IsDescending entry_bytes kept
    × All (λ x. All (λ y. entry_bytes y ≤ entry_bytes x) left_out) kept
top_hosts_lem_example = top_hosts_lem ranked_tab 2
