-- ===== src/Traffic/Closing.antt =====
-- What the close of a tab, and of all tabs, leaves behind.
use mathlib.Core.Option
use chrome_live.Base.{
  String, ◌≡◌, refl, none, some, [], ◌∷◌, map, arith, ◌==◌, string_key, ==-refl, Option-cases, inl,
  inr, if◌then◌else◌, ap, ◌∙◌,
}
use mathlib.Core.Path.{ap₂}
use chrome_live.Dict.{Dict, lookup, erase, keys}
use chrome_live.Dict.Laws.{lookup-erase}
use chrome_live.Dict.Keys.{IsDict, unless, lookup-sweep, erase-cons}
use chrome_live.Traffic.State.{TabTraffic, Traffic}
use chrome_live.Traffic.Tabs.{close_tab, close_each, close_all, of_session, present}

-- `tab` with the time of its close
abbrev pub closed_at : String → TabTraffic → TabTraffic
closed_at now tab = record tab { closed_at = some now }

module _ (now sid : String) (s : Traffic) where
  -- In a state whose in-flight table is a dict, the close of a session returns its tab as it was,
  -- with the time of the close, or `none` if there was none; afterwards the session is unknown,
  -- every other session has the tab that it had, the requests of the session are in flight no
  -- more, every other request is as it was, and the process totals have not changed.
  pub close_tab_lem :
      IsDict s.inflight
      → let (r, s') = close_tab now sid s in
        (r ≡ Option.map (closed_at now) (lookup sid s.tab_by_session))
        × ((j : String)
            → lookup j s'.tab_by_session ≡ (if sid == j then none else lookup j s.tab_by_session))
        × ((rid : String)
            → lookup rid s'.inflight ≡ unless (of_session sid) (lookup rid s.inflight))
        × (s'.total_bytes ≡ s.total_bytes)
        × (s'.total_requests ≡ s.total_requests)
        × (s'.host_totals ≡ s.host_totals)
  unfolding close_tab
  close_tab_lem h = elim (Option-cases (lookup sid s.tab_by_session)) [
    | inl unknown ↦ rw unknown (
      refl,
      λ j. lookup-erase sid j s.tab_by_session,
      λ rid. lookup-sweep (of_session sid) rid s.inflight h,
      refl,
      refl,
      refl,
    )
    | inr (tab, found) ↦ rw found (
      refl,
      λ j. lookup-erase sid j s.tab_by_session,
      λ rid. lookup-sweep (of_session sid) rid s.inflight h,
      refl,
      refl,
      refl,
    )
  ]

  tabs-close_tab : (close_tab now sid s).1.tab_by_session ≡ erase sid s.tab_by_session
  unfolding close_tab
  tabs-close_tab = ground arith

  pub returned-close_tab :
      (close_tab now sid s).0 ≡ Option.map (closed_at now) (lookup sid s.tab_by_session)
  unfolding close_tab
  returned-close_tab = ground arith

module _ (clock : String → String) where
  abbrev pub closed_entry : String × TabTraffic → TabTraffic
  closed_entry (sid, tab) = closed_at (clock sid) tab

  close_each-keys :
      (d : Dict String TabTraffic) (s : Traffic)
      → s.tab_by_session ≡ d
      → IsDict d
      → let (closed, s') = close_each clock (keys d) s in
        (closed ≡ map closed_entry d) × (s'.tab_by_session ≡ [])
  unfolding close_each lookup
  close_each-keys [] s e h = (refl, e)
  close_each-keys ((sid, tab) ∷ d) s e h =
      let s' = (close_tab (clock sid) sid s).1 in
      let shrunk : s'.tab_by_session ≡ d =
        tabs-close_tab (clock sid) sid s ∙ ap (erase sid) e ∙ erase-cons sid tab d h.0 in
      let (rest, emptied) = close_each-keys d s' shrunk h.1 in
      let returned : (close_tab (clock sid) sid s).0 ≡ some (closed_at (clock sid) tab) =
        returned-close_tab (clock sid) sid s
        ∙ ap (λ (t : Dict String TabTraffic). Option.map (closed_at (clock sid)) (lookup sid t)) e
        ∙ rw (==-refl sid) in
      (ap₂ present returned rest, emptied)

  -- In a state whose session table is a dict, `close_all` returns every open tab, in the order in
  -- which they were opened, each with the time of its close, and leaves no tab open.
  pub close_all_lem :
      (s : Traffic)
      → IsDict s.tab_by_session
      → let (closed, s') = close_all clock s in
        (closed ≡ map closed_entry s.tab_by_session) × (s'.tab_by_session ≡ [])
  unfolding close_all
  close_all_lem s h = close_each-keys s.tab_by_session s refl h
