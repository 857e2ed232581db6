-- ===== src/Traffic/Ranking.antt =====
-- `top_hosts` and the rankings of `snapshot` in browser-trace/traffic.py.
use mathlib.Core.List.{Perm}
use chrome_live.Base.{
  ℕ, ◌≤◌, String, ◌≡◌, List, map, length, take, drop, take-append-drop, ◌++◌, All, min, length-take,
  arith, refl,
}
use chrome_live.Base.Sorting.{
  sort_desc, IsDescending, sort_desc-IsDescending, sort_desc-perm, length-sort_desc, take_heaviest,
  take-IsDescending,
}
use chrome_live.Dict.{values}
use chrome_live.Traffic.State.{HostTotals, Hosts, TabTraffic, Traffic}

abbrev pub entry_bytes : String × HostTotals → ℕ
entry_bytes (host, totals) = totals.bytes_received

-- `sorted(hosts.items(), key=bytes_received, reverse=True)`
abbrev pub ranked_hosts : Hosts → List (String × HostTotals)
ranked_hosts hosts = sort_desc entry_bytes hosts

abbrev pub with_bytes : String × HostTotals → String × ℕ
with_bytes (host, totals) = (host, totals.bytes_received)

unfoldable pub top_hosts : TabTraffic → ℕ → List (String × ℕ)
top_hosts tab limit = map with_bytes (take limit (ranked_hosts tab.by_host))

-- the open tabs as `snapshot` lists them
unfoldable pub ranked_tabs : Traffic → List TabTraffic
ranked_tabs s = sort_desc (λ tab. tab.bytes_received) (values s.tab_by_session)

-- `top_hosts` lists, as pairs of host and bytes, `limit` of the tab's hosts, or all of them if there
-- are fewer: the listed hosts and the others are together the tab's hosts, each as often as there,
-- the list is in descending order of bytes, and no host that is left out has more bytes than one
-- that is listed.
pub top_hosts_lem :
    (tab : TabTraffic) (limit : ℕ)
    → (kept : List (String × HostTotals)) × (left_out : List (String × HostTotals)) × (top_hosts tab
          limit
        ≡ map with_bytes kept)
      × (length kept ≡ min limit (length tab.by_host))
      × Perm (kept ++ left_out) tab.by_host
      × IsDescending entry_bytes kept
      × All (λ x. All (λ y. entry_bytes y ≤ entry_bytes x) left_out) kept
unfolding top_hosts
top_hosts_lem tab limit =
    let ranked = ranked_hosts tab.by_host in
    let descending = sort_desc-IsDescending entry_bytes tab.by_host in
    (
      take limit ranked,
      drop limit ranked,
      refl,
      omega (arith, length-take limit ranked, length-sort_desc entry_bytes tab.by_host),
      rw (take-append-drop limit ranked) (sort_desc-perm entry_bytes tab.by_host),
      take-IsDescending entry_bytes limit ranked descending,
      take_heaviest entry_bytes limit ranked descending,
    )
