-- ===== src/Traffic/Reporting/Closing.antt =====
-- The close of tabs hands what they have not reported to their last events.
use chrome_live.Base.{
  ℕ, ◌+◌, String, ◌≡◌, none, some, Option, List, [], ◌∷◌, arith, sum_by, string_key, Option-cases,
  inl, inr,
}
use mathlib.Core.Path.{subst}
use chrome_live.Dict.{lookup}
use chrome_live.Traffic.State.{TabTraffic, Traffic}
use chrome_live.Traffic.Tabs.{close_tab, close_each, present}
use chrome_live.Traffic.Closing.{returned-close_tab}
use chrome_live.Traffic.Reporting.{HasReported, unreported}
use chrome_live.Traffic.Reporting.Handlers.{close_tab-HasReported, close_absent-HasReported}

pub rebook : {n n' : ℕ} {s : Traffic} → n ≡ n' → HasReported n s → HasReported n' s
rebook {n} {n'} {s} e h = subst (λ (k : ℕ). HasReported k s) e h

pub close_tab-settles :
    (n : ℕ) (now sid : String) (s : Traffic)
    → HasReported n s
    → let (tab, s') = close_tab now sid s in HasReported (n + sum_by unreported (present tab [])) s'
close_tab-settles n now sid s h =
    let r = returned-close_tab now sid s in
    elim (Option-cases (lookup sid s.tab_by_session)) [
      | inl unknown ↦
          rebook (ground (arith, r, unknown)) (close_absent-HasReported n now sid s unknown h)
      | inr (tab, found) ↦
          rebook (ground (arith, r, found)) (close_tab-HasReported n now sid tab s found h)
    ]

present-sum :
    (tab : Option TabTraffic) (tabs : List TabTraffic)
    → sum_by unreported (present tab tabs)
      ≡ sum_by unreported (present tab []) + sum_by unreported tabs
present-sum none tabs = omega arith
present-sum (some tab) tabs = omega arith

pub close_each-settles :
    (clock : String → String) (sids : List String) (n : ℕ) (s : Traffic)
    → HasReported n s
    → let (tabs, s') = close_each clock sids s in HasReported (n + sum_by unreported tabs) s'
unfolding close_each
close_each-settles clock [] n s h = rebook (omega arith) h
close_each-settles clock (sid ∷ sids) n s h =
    let (tab, s') = close_tab (clock sid) sid s in
    let rest = close_each-settles clock sids _ s' (close_tab-settles n (clock sid) sid s h) in
    rebook (omega (arith, present-sum tab (close_each clock sids s').0)) rest
