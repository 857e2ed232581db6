-- ===== src/Traffic/Reporting/Handlers.antt =====
-- The handlers and tab operations of browser-trace/traffic.py keep the accounts of what is reported.
use chrome_live.Base.{
  ℕ, ◌+◌, String, ◌≡◌, refl, Option, none, some, arith, ap, ◌∙◌, ◌==◌, string_key, Bool-cases,
  Option-cases, inl, inr,
}
use chrome_live.Base.Int.{ℤ}
use chrome_live.Base.Exec.{Exec, gets, ◌>>=◌}
use chrome_live.Base.Exec.Keeps.{Keeps, Keeps-bind, keeps_rules}
use chrome_live.Dict.{lookup, contains}
use chrome_live.Dict.Keys.{insert-IsDict, erase-IsDict, modify-IsDict, sum_values-erase_exact}
use chrome_live.Dict.Sums.{
  AllValues-insert, AllValues-erase, AllValues-modify, sum_values-insert_new, sum_values-modify,
}
use chrome_live.Traffic.State.{TabTraffic, InflightRequest, Traffic}
use chrome_live.Traffic.Hosts.{UrlLib}
use chrome_live.Traffic.Requests.{
  bind_request_host, inflight_or_new, receive, on_data_received, host_or_fallback, settle,
  on_loading_finished, retire, on_loading_failed, with_inflight, pop_inflight,
}
use chrome_live.Traffic.Tabs.{open_tab, set_tab_url, mark_reported, close_tab}
use chrome_live.Traffic.Reporting.{
  unreported, IsSane, HasReported, Reports, with_inflight-Reports, add_bytes-Reports,
  count_request-Reports,
}

ruleset open_rules = (keeps_rules, with_inflight-Reports, add_bytes-Reports, count_request-Reports)

module _ (n : ℕ) where
  with_inflight-HasReported :
      (rid : String) (r : InflightRequest) (s : Traffic)
      → HasReported n s
      → HasReported n (with_inflight rid r s)
  with_inflight-HasReported rid r s h = record { tabs = h.tabs; sane = h.sane; exact = h.exact }

  pop_inflight-HasReported : (rid : String) → Keeps (HasReported n) (pop_inflight rid)
  pop_inflight-HasReported rid = record {
    after = λ s h. record { tabs = h.tabs; sane = h.sane; exact = h.exact };
  }

  -- A handler that looks its tab up: what it does with the tab may rely on it being open.
  with_tab :
      (sid : String) (body : Option TabTraffic → Exec Traffic Unit)
      → Keeps (HasReported n) (body none)
      → ((tab : TabTraffic) → Keeps (Reports n sid) (body (some tab)))
      → Keeps (HasReported n) (gets (λ s. lookup sid s.tab_by_session) >>= body)
  with_tab sid body absent present = record {
    after = λ s h. elim (Option-cases (lookup sid s.tab_by_session)) [
      | inl unknown ↦ rw unknown (absent.after s h)
      | inr (tab, found) ↦
          let here : Reports n sid s = record { accounts = h; is_open = rw found } in
          rw found ((present tab).after s here).accounts
    ];
  }

  module _ (lib : UrlLib) where
    new-Reports :
        (sid : String) (tab : TabTraffic) (found : Option InflightRequest)
        → Keeps (Reports n sid) (inflight_or_new lib sid tab found)
    unfolding inflight_or_new
    new-Reports sid tab none = search open_rules
    new-Reports sid tab (some r) = search open_rules

    host-Reports :
        (sid : String) (tab : TabTraffic) (found : Option InflightRequest)
        → Keeps (Reports n sid) (host_or_fallback lib tab found)
    unfolding host_or_fallback
    host-Reports sid tab none = search open_rules
    host-Reports sid tab (some r) = search open_rules

    receive-Reports :
        (sid rid : String) (k : ℤ) (tab : TabTraffic)
        → Keeps (Reports n sid) (receive lib sid rid k (some tab))
    unfolding receive
    receive-Reports sid rid k tab = search (open_rules, new-Reports) depth 8

    settle-Reports :
        (sid : String) (k : ℤ) (found : Option InflightRequest) (tab : TabTraffic)
        → Keeps (Reports n sid) (settle lib sid k found (some tab))
    unfolding settle
    settle-Reports sid k found tab = search (open_rules, host-Reports) depth 8

    retire-Reports :
        (sid : String) (found : Option InflightRequest) (tab : TabTraffic)
        → Keeps (Reports n sid) (retire lib sid found (some tab))
    unfolding retire
    retire-Reports sid found tab = search (open_rules, host-Reports) depth 8

    pub bind_request_host-HasReported :
        (sid rid url : String) → Keeps (HasReported n) (bind_request_host lib sid rid url)
    unfolding bind_request_host
    bind_request_host-HasReported sid rid url = search (keeps_rules, with_inflight-HasReported)

    pub on_data_received-HasReported :
        (sid rid : String) (k : ℤ) → Keeps (HasReported n) (on_data_received lib sid rid k)
    unfolding on_data_received receive
    on_data_received-HasReported sid rid k =
        with_tab sid (receive lib sid rid k) (search keeps_rules) (receive-Reports sid rid k)

    pub on_loading_finished-HasReported :
        (sid rid : String) (k : ℤ) → Keeps (HasReported n) (on_loading_finished lib sid rid k)
    unfolding on_loading_finished settle
    on_loading_finished-HasReported sid rid k =
        Keeps-bind (pop_inflight rid) _ (pop_inflight-HasReported rid) (λ found.
          with_tab sid (settle lib sid k found) (search keeps_rules) (settle-Reports sid k found))

    pub on_loading_failed-HasReported :
        (sid rid : String) → Keeps (HasReported n) (on_loading_failed lib sid rid)
    unfolding on_loading_failed retire
    on_loading_failed-HasReported sid rid =
        Keeps-bind (pop_inflight rid) _ (pop_inflight-HasReported rid) (λ found.
          with_tab sid (retire lib sid found) (search keeps_rules) (retire-Reports sid found))

  pub open_tab-HasReported :
      (now sid target_id url : String) (s : Traffic)
      → HasReported n s
      → HasReported n (open_tab now sid target_id url s)
  unfolding open_tab contains
  open_tab-HasReported now sid target_id url s h =
      elim (Option-cases (lookup sid s.tab_by_session)) [
        | inl new ↦ rw new (record {
          tabs = insert-IsDict sid _ s.tab_by_session h.tabs;
          sane = AllValues-insert IsSane sid _ s.tab_by_session h.sane (omega arith);
          exact =
              ap (λ (k : ℕ). n + k)
                (sum_values-insert_new unreported sid _ s.tab_by_session new refl)
              ∙ h.exact;
        })
        | inr (tab, found) ↦ rw found h
      ]

  pub set_tab_url-HasReported :
      (sid url : String) (s : Traffic) → HasReported n s → HasReported n (set_tab_url sid url s)
  unfolding set_tab_url
  set_tab_url-HasReported sid url s h = elim (Bool-cases (url == "")) [
    | inl empty ↦ rw empty h
    | inr given ↦ rw given (record {
      tabs = modify-IsDict sid _ s.tab_by_session h.tabs;
      sane = AllValues-modify IsSane sid _ s.tab_by_session h.sane (λ v p. p);
      exact = ground (
        arith,
        h.exact,
        sum_values-modify unreported sid (λ tab. record tab { url = url }) s.tab_by_session,
      );
    })
  ]

  -- A report of a tab reports what was unreported.
  pub mark_reported-HasReported :
      (sid : String) (tab : TabTraffic) (s : Traffic)
      → lookup sid s.tab_by_session ≡ some tab
      → HasReported n s
      → HasReported (n + unreported tab) (mark_reported sid s)
  unfolding mark_reported
  mark_reported-HasReported sid tab s found h = record {
    tabs = modify-IsDict sid _ s.tab_by_session h.tabs;
    sane = AllValues-modify IsSane sid _ s.tab_by_session h.sane (λ v p. omega arith);
    exact = ground (
      arith,
      h.exact,
      found,
      sum_values-modify unreported sid (λ t. record t { reported_bytes = t.bytes_received })
          s.tab_by_session,
    );
  }

  -- The close of a tab leaves its unreported bytes to the event that is emitted for it.
  pub close_tab-HasReported :
      (now sid : String) (tab : TabTraffic) (s : Traffic)
      → lookup sid s.tab_by_session ≡ some tab
      → HasReported n s
      → HasReported (n + unreported tab) (close_tab now sid s).1
  unfolding close_tab
  close_tab-HasReported now sid tab s found h = rw found (record {
    tabs = erase-IsDict sid s.tab_by_session h.tabs;
    sane = AllValues-erase IsSane sid s.tab_by_session h.sane;
    exact =
        ground
          (arith, h.exact, found, sum_values-erase_exact unreported sid s.tab_by_session h.tabs);
  })

  pub close_absent-HasReported :
      (now sid : String) (s : Traffic)
      → lookup sid s.tab_by_session ≡ none
      → HasReported n s
      → HasReported n (close_tab now sid s).1
  unfolding close_tab
  close_absent-HasReported now sid s unknown h = rw unknown (record {
    tabs = erase-IsDict sid s.tab_by_session h.tabs;
    sane = AllValues-erase IsSane sid s.tab_by_session h.sane;
    exact =
        ground
          (arith, h.exact, unknown, sum_values-erase_exact unreported sid s.tab_by_session h.tabs);
  })
