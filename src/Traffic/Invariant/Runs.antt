-- ===== src/Traffic/Invariant/Runs.antt =====
-- The module's calls as data, and what holds after any sequence of them.
use chrome_live.Base.{String, List, [], ◌∷◌}
use chrome_live.Base.Int.{ℤ}
use chrome_live.Traffic.State.{Traffic, initial}
use chrome_live.Traffic.Hosts.{UrlLib}
use chrome_live.Traffic.Requests.{
  bind_request_host, on_data_received, on_loading_finished, on_loading_failed,
}
use chrome_live.Traffic.Tabs.{open_tab, set_tab_url, mark_reported, close_tab, close_all}
use chrome_live.Traffic.Invariant.{IsBalanced, initial-IsBalanced}
use chrome_live.Traffic.Invariant.Handlers.{
  bind_request_host-IsBalanced, on_data_received-IsBalanced, on_loading_finished-IsBalanced,
  on_loading_failed-IsBalanced,
}
use chrome_live.Traffic.Invariant.Closing.{
  open_tab-IsBalanced, set_tab_url-IsBalanced, mark_reported-IsBalanced, close_tab-IsBalanced,
  close_all-IsBalanced,
}

-- A call of the module, with the time stamps that it reads.
pub data Call : Type 0 where
  opened : String → String → String → String → Call
  moved : String → String → Call
  bound : String → String → String → Call
  data_received finished : String → String → ℤ → Call
  failed : String → String → Call
  reported : String → Call
  closed : String → String → Call
  all_closed : (String → String) → Call

module _ (lib : UrlLib) where
  unfoldable pub call : Call → Traffic → Traffic
  call (opened now sid target_id url) s = open_tab now sid target_id url s
  call (moved sid url) s = set_tab_url sid url s
  call (bound sid rid url) s = (bind_request_host lib sid rid url s).1
  call (data_received sid rid n) s = (on_data_received lib sid rid n s).1
  call (finished sid rid n) s = (on_loading_finished lib sid rid n s).1
  call (failed sid rid) s = (on_loading_failed lib sid rid s).1
  call (reported sid) s = mark_reported sid s
  call (closed now sid) s = (close_tab now sid s).1
  call (all_closed clock) s = (close_all clock s).1

  unfoldable pub run : List Call → Traffic → Traffic
  unfolding call
  run [] s = s
  run (c ∷ cs) s = run cs (call c s)

  call-IsBalanced : (c : Call) (s : Traffic) → IsBalanced s → IsBalanced (call c s)
  unfolding call
  call-IsBalanced (opened now sid target_id url) s h = open_tab-IsBalanced now sid target_id url s h
  call-IsBalanced (moved sid url) s h = set_tab_url-IsBalanced sid url s h
  call-IsBalanced (bound sid rid url) s h = (bind_request_host-IsBalanced lib sid rid url).after s h
  call-IsBalanced (data_received sid rid n) s h =
      (on_data_received-IsBalanced lib sid rid n).after s h
  call-IsBalanced (finished sid rid n) s h =
      (on_loading_finished-IsBalanced lib sid rid n).after s h
  call-IsBalanced (failed sid rid) s h = (on_loading_failed-IsBalanced lib sid rid).after s h
  call-IsBalanced (reported sid) s h = mark_reported-IsBalanced sid s h
  call-IsBalanced (closed now sid) s h = close_tab-IsBalanced now sid s h
  call-IsBalanced (all_closed clock) s h = close_all-IsBalanced clock s h

  pub run-IsBalanced : (cs : List Call) (s : Traffic) → IsBalanced s → IsBalanced (run cs s)
  unfolding run
  run-IsBalanced [] s h = h
  run-IsBalanced (c ∷ cs) s h = run-IsBalanced cs (call c s) (call-IsBalanced c s h)

  -- From the state at import, after any sequence of calls, whether or not `urlsplit` raised in
  -- them: the process totals are the sums of the host rollup, every open and every retained tab's
  -- counters are the sums of its own hosts, the open and retained tabs account for no more than
  -- the totals, no dict of hosts has passed its cap (the overflow entry aside), no tab has
  -- reported more than it received, and at most `closed_tab_history` closed tabs are retained.
  pub accounts_balance : (cs : List Call) → IsBalanced (run cs initial)
  accounts_balance cs = run-IsBalanced cs initial initial-IsBalanced
