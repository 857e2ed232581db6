-- ===== src/Traffic/Reporting.antt =====
-- What the `tab_traffic` events have reported, against what was received: the accounts that
-- `emit_tab_traffic` of browser-trace/main.py settles.
pub mod Handlers
pub mod Closing
use chrome_live.Base.{
  ℕ, ◌+◌, ◌-◌, ◌≤◌, String, Bool, true, ◌≡◌, refl, Option, none, some, arith, ap, ◌==◌, string_key,
  Bool-cases, Option-cases, inl, inr, is_some,
}
use chrome_live.Base.Int.{ℤ, pos_part, leb_ℤ, pos}
use chrome_live.Base.Exec.{Exec}
use chrome_live.Base.Exec.Keeps.{Keeps, keeps_rules}
use chrome_live.Dict.{Dict, lookup, insert, erase, contains, modify}
use chrome_live.Dict.Laws.{lookup-modify}
use chrome_live.Dict.Keys.{
  IsDict, insert-IsDict, erase-IsDict, modify-IsDict, sum_values-erase_exact,
}
use chrome_live.Dict.Sums.{
  weight, sum_values, AllValues, AllValues-lookup, AllValues-insert, AllValues-erase,
  AllValues-modify, sum_values-insert, sum_values-modify,
}
use chrome_live.Traffic.State.{TabTraffic, InflightRequest, Traffic}
use chrome_live.Traffic.Hosts.{UrlLib}
use chrome_live.Traffic.Requests.{
  add_bytes, count_request, add_to_tab, count_on_tab, bind_request_host, inflight_or_new, receive,
  on_data_received, host_or_fallback, settle, on_loading_finished, retire, on_loading_failed,
  with_inflight, pop_inflight,
}
use chrome_live.Traffic.Tabs.{open_tab, set_tab_url, mark_reported, close_tab}

-- What a tab has received since its last event.
abbrev pub unreported : TabTraffic → ℕ
unreported tab = tab.bytes_received - tab.reported_bytes

abbrev pub IsSane : TabTraffic → Type 0
IsSane tab = tab.reported_bytes ≤ tab.bytes_received

-- Events have reported `n` bytes: these and the open tabs' unreported bytes are all bytes.
pub record HasReported (n : ℕ) (s : Traffic) : Type 0 where
  pub tabs : IsDict s.tab_by_session
  pub sane : AllValues IsSane s.tab_by_session
  pub exact : n + sum_values unreported s.tab_by_session ≡ s.total_bytes

-- the same while the tab of a session is open
pub record Reports (n : ℕ) (sid : String) (s : Traffic) : Type 0 where
  pub accounts : HasReported n s
  pub is_open : is_some (lookup sid s.tab_by_session) ≡ true

-- A change of the open tab of a session: what it adds to the unreported bytes.
unreported-grows :
    (sid : String) (f : TabTraffic → TabTraffic) (k : ℕ) (tabs : Dict String TabTraffic)
    → AllValues IsSane tabs
    → is_some (lookup sid tabs) ≡ true
    → ((v : TabTraffic) → (f v).bytes_received ≡ v.bytes_received + k)
    → ((v : TabTraffic) → (f v).reported_bytes ≡ v.reported_bytes)
    → sum_values unreported (modify sid f tabs) ≡ sum_values unreported tabs + k
unreported-grows sid f k tabs sane here grows keeps = elim (Option-cases (lookup sid tabs)) [
  | inl unknown ↦ ground (arith, unknown, here)
  | inr (tab, found) ↦ ground (
    arith,
    found,
    grows tab,
    keeps tab,
    AllValues-lookup IsSane sid tab tabs sane found,
    sum_values-modify unreported sid f tabs,
  )
]

grown-IsSane :
    (f : TabTraffic → TabTraffic) (k : ℕ)
    → ((v : TabTraffic) → (f v).bytes_received ≡ v.bytes_received + k)
    → ((v : TabTraffic) → (f v).reported_bytes ≡ v.reported_bytes)
    → (v : TabTraffic) → IsSane v
    → IsSane (f v)
grown-IsSane f k grows keeps v h = omega (arith, grows v, keeps v, h)

still_open :
    (sid : String) (f : TabTraffic → TabTraffic) (tabs : Dict String TabTraffic)
    → is_some (lookup sid tabs) ≡ true
    → is_some (lookup sid (modify sid f tabs)) ≡ true
still_open sid f tabs h = ground (arith, lookup-modify sid sid f tabs)

module _ (n : ℕ) where
  pub with_inflight-Reports :
      (sid rid : String) (r : InflightRequest) (s : Traffic)
      → Reports n sid s
      → Reports n sid (with_inflight rid r s)
  with_inflight-Reports sid rid r s h = record {
    accounts = record { tabs = h.accounts.tabs; sane = h.accounts.sane; exact = h.accounts.exact };
    is_open = h.is_open;
  }

  modify-Reports :
      (sid : String) (f : TabTraffic → TabTraffic) (k : ℕ) (s s' : Traffic)
      → Reports n sid s
      → ((v : TabTraffic) → (f v).bytes_received ≡ v.bytes_received + k)
      → ((v : TabTraffic) → (f v).reported_bytes ≡ v.reported_bytes)
      → s'.tab_by_session ≡ modify sid f s.tab_by_session
      → s'.total_bytes ≡ s.total_bytes + k
      → Reports n sid s'
  modify-Reports sid f k s s' h grows keeps tabs total = record {
    accounts = record {
      tabs = rw tabs (modify-IsDict sid f s.tab_by_session h.accounts.tabs);
      sane = rw tabs (
          AllValues-modify IsSane sid f s.tab_by_session h.accounts.sane
            (grown-IsSane f k grows keeps));
      exact = omega (
        arith,
        ap (sum_values unreported) tabs,
        total,
        h.accounts.exact,
        unreported-grows sid f k s.tab_by_session h.accounts.sane h.is_open grows keeps,
      );
    };
    is_open = rw tabs (still_open sid f s.tab_by_session h.is_open);
  }

  pub add_bytes-Reports :
      (sid host : String) (k : ℤ) (s : Traffic)
      → Reports n sid s
      → Reports n sid (add_bytes sid host k s)
  unfolding add_bytes
  add_bytes-Reports sid host k s h = elim (Bool-cases (leb_ℤ k (pos 0))) [
    | inl none_new ↦ rw none_new h
    | inr some_new ↦ rw some_new (
        modify-Reports sid (add_to_tab host (pos_part k)) (pos_part k) s _ h (λ v. refl) (λ v. refl)
          refl refl)
  ]

  pub count_request-Reports :
      (sid host : String) (s : Traffic) → Reports n sid s → Reports n sid (count_request sid host s)
  unfolding count_request
  count_request-Reports sid host s h =
      modify-Reports sid (count_on_tab host) 0 s _ h (λ v. omega arith) (λ v. refl) refl
        (omega arith)
