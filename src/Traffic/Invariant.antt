-- ===== src/Traffic/Invariant.antt =====
-- The accounts balance: every total is the sum of what stands under it, in every reachable state.
pub mod Handlers
mod Closing
pub mod Runs
use chrome_live.Base.{
  ℕ, zero, suc, ◌+◌, ◌-◌, ◌≤◌, String, ◌≡◌, refl, true, false, Option, none, some, List, [], ◌∷◌,
  ◌++◌, arith, string_key, length, drop, All, sum_by, length-append, length-drop, sum_by-append,
  sum_by-drop-le, All-append, All-drop, Bool-cases, Option-cases, inl, inr,
}
use chrome_live.Base.Int.{ℤ, pos, pos_part, leb_ℤ}
use chrome_live.Dict.{Dict, lookup, insert, erase, contains, modify}
use chrome_live.Dict.Laws.{length-erase-le}
use chrome_live.Dict.Sums.{
  weight, sum_values, AllValues, AllValues-lookup, AllValues-insert, AllValues-erase,
  AllValues-modify, sum_values-insert, sum_values-erase, sum_values-modify-le,
}
use chrome_live.Traffic.State.{
  HostTotals, Hosts, TabTraffic, InflightRequest, Traffic, initial, closed_tab_history,
}
use chrome_live.Traffic.Hosts.{bucket}
use chrome_live.Traffic.Requests.{
  add_to_host, count_on_host, add_to_tab, count_on_tab, add_bytes, count_request,
}
use chrome_live.Traffic.Buckets.{IsCapped, IsCapped-bucket, sum_values-bucket}

abbrev pub host_bytes : HostTotals → ℕ
host_bytes t = t.bytes_received

abbrev pub host_requests : HostTotals → ℕ
host_requests t = t.requests

abbrev pub tab_bytes : TabTraffic → ℕ
tab_bytes t = t.bytes_received

abbrev pub tab_requests : TabTraffic → ℕ
tab_requests t = t.requests

-- A tab's counters are the sums over its hosts, and no event has reported more than was received.
pub record TabIsBalanced (tab : TabTraffic) : Type 0 where
  pub bytes : sum_values host_bytes tab.by_host ≡ tab.bytes_received
  pub requests : sum_values host_requests tab.by_host ≡ tab.requests
  pub capped : IsCapped tab.by_host
  pub reported : tab.reported_bytes ≤ tab.bytes_received

pub record IsBalanced (s : Traffic) : Type 0 where
  pub bytes : sum_values host_bytes s.host_totals ≡ s.total_bytes
  pub requests : sum_values host_requests s.host_totals ≡ s.total_requests
  pub capped : IsCapped s.host_totals
  pub open_tabs : AllValues TabIsBalanced s.tab_by_session
  pub closed : All TabIsBalanced s.closed_tabs
  pub covers_bytes :
      sum_values tab_bytes s.tab_by_session + sum_by tab_bytes s.closed_tabs ≤ s.total_bytes
  pub covers_requests :
      sum_values tab_requests s.tab_by_session + sum_by tab_requests s.closed_tabs
      ≤ s.total_requests
  pub history : length s.closed_tabs ≤ closed_tab_history
  pub counted : length s.closed_tabs ≤ s.closed_tab_count

pub initial-IsBalanced : IsBalanced initial
initial-IsBalanced = record {
  bytes = refl;
  requests = refl;
  capped = omega arith;
  open_tabs = tt;
  closed = tt;
  covers_bytes = omega arith;
  covers_requests = omega arith;
  history = omega arith;
  counted = omega arith;
}

add_to_tab-TabIsBalanced :
    (host : String) (n : ℕ) (tab : TabTraffic)
    → TabIsBalanced tab
    → TabIsBalanced (add_to_tab host n tab)
add_to_tab-TabIsBalanced host n tab h = record {
  bytes = omega (
    arith,
    h.bytes,
    sum_values-bucket host_bytes n (add_to_host n) tab.by_host host refl (λ t. refl),
  );
  requests = omega (
    arith,
    h.requests,
    sum_values-bucket host_requests 0 (add_to_host n) tab.by_host host refl (λ t. omega arith),
  );
  capped = IsCapped-bucket tab.by_host host (add_to_host n) h.capped;
  reported = omega (arith, h.reported);
}

count_on_tab-TabIsBalanced :
    (host : String) (tab : TabTraffic) → TabIsBalanced tab → TabIsBalanced (count_on_tab host tab)
count_on_tab-TabIsBalanced host tab h = record {
  bytes = omega (
    arith,
    h.bytes,
    sum_values-bucket host_bytes 0 count_on_host tab.by_host host refl (λ t. omega arith),
  );
  requests = omega (
    arith,
    h.requests,
    sum_values-bucket host_requests 1 count_on_host tab.by_host host refl (λ t. refl),
  );
  capped = IsCapped-bucket tab.by_host host count_on_host h.capped;
  reported = h.reported;
}

grown-IsBalanced :
    (sid host : String) (n : ℕ) (s : Traffic)
    → IsBalanced s
    → IsBalanced (record s {
      tab_by_session = modify sid (add_to_tab host n) s.tab_by_session;
      host_totals = bucket s.host_totals host (add_to_host n);
      total_bytes = s.total_bytes + n;
    })
grown-IsBalanced sid host n s h = record {
  bytes = omega (
    arith,
    h.bytes,
    sum_values-bucket host_bytes n (add_to_host n) s.host_totals host refl (λ t. refl),
  );
  requests = omega (
    arith,
    h.requests,
    sum_values-bucket host_requests 0 (add_to_host n) s.host_totals host refl (λ t. omega arith),
  );
  capped = IsCapped-bucket s.host_totals host (add_to_host n) h.capped;
  open_tabs =
      AllValues-modify TabIsBalanced sid (add_to_tab host n) s.tab_by_session h.open_tabs
        (add_to_tab-TabIsBalanced host n);
  closed = h.closed;
  covers_bytes = omega (
    arith,
    h.covers_bytes,
    sum_values-modify-le tab_bytes sid (add_to_tab host n) n s.tab_by_session (λ t. omega arith),
  );
  covers_requests = omega (
    arith,
    h.covers_requests,
    sum_values-modify-le tab_requests sid (add_to_tab host n) 0 s.tab_by_session (λ t. omega arith),
  );
  history = h.history;
  counted = h.counted;
}

pub add_bytes-IsBalanced :
    (sid host : String) (n : ℤ) (s : Traffic) → IsBalanced s → IsBalanced (add_bytes sid host n s)
unfolding add_bytes
add_bytes-IsBalanced sid host n s h = elim (Bool-cases (leb_ℤ n (pos 0))) [
  | inl zero_or_less ↦ rw zero_or_less h
  | inr positive ↦ rw positive (grown-IsBalanced sid host (pos_part n) s h)
]

pub count_request-IsBalanced :
    (sid host : String) (s : Traffic) → IsBalanced s → IsBalanced (count_request sid host s)
unfolding count_request
count_request-IsBalanced sid host s h = record {
  bytes = omega (
    arith,
    h.bytes,
    sum_values-bucket host_bytes 0 count_on_host s.host_totals host refl (λ t. omega arith),
  );
  requests = omega (
    arith,
    h.requests,
    sum_values-bucket host_requests 1 count_on_host s.host_totals host refl (λ t. refl),
  );
  capped = IsCapped-bucket s.host_totals host count_on_host h.capped;
  open_tabs =
      AllValues-modify TabIsBalanced sid (count_on_tab host) s.tab_by_session h.open_tabs
        (count_on_tab-TabIsBalanced host);
  closed = h.closed;
  covers_bytes = omega (
    arith,
    h.covers_bytes,
    sum_values-modify-le tab_bytes sid (count_on_tab host) 0 s.tab_by_session (λ t. omega arith),
  );
  covers_requests = omega (
    arith,
    h.covers_requests,
    sum_values-modify-le tab_requests sid (count_on_tab host) 1 s.tab_by_session (λ t. omega arith),
  );
  history = h.history;
  counted = h.counted;
}
