-- ===== src/Traffic/Invariant/Closing.antt =====
-- Opening, relabelling, reporting and closing a tab keep the accounts balanced.
use chrome_live.Base.{
  ℕ, ◌+◌, ◌≤◌, String, ◌≡◌, none, some, List, [], ◌∷◌, ◌++◌, arith, ◌==◌, string_key, length, All,
  sum_by, ◌-◌, length-append, length-drop, sum_by-append, sum_by-drop-le, All-append, All-drop,
  Bool-cases, Option-cases, inl, inr, refl,
}
use chrome_live.Dict.{lookup, insert, erase, erase_each, keys_where, contains, modify, Dict, keys}
use chrome_live.Dict.Sums.{
  AllValues-lookup, AllValues-insert, AllValues-erase, AllValues-modify, sum_values-insert,
  sum_values-erase, sum_values-modify-le,
}
use chrome_live.Traffic.State.{TabTraffic, InflightRequest, Traffic, closed_tab_history}
use chrome_live.Traffic.Tabs.{
  open_tab, set_tab_url, mark_reported, push_bounded, finish_tab, close_tab, close_each, close_all,
  of_session,
}
use chrome_live.Traffic.Invariant.{TabIsBalanced, IsBalanced, tab_bytes, tab_requests}

module _ {ℓ} {A : Type ℓ} (n : ℕ) (xs : List A) (x : A) where
  length-push_bounded-le : length (push_bounded n xs x) ≤ n
  unfolding push_bounded
  length-push_bounded-le = omega (arith, length-drop (length (xs ++ x ∷ []) - n) (xs ++ x ∷ []))

  length-push_bounded-le_suc : length (push_bounded n xs x) ≤ length xs + 1
  unfolding push_bounded
  length-push_bounded-le_suc =
      omega
        (arith, length-drop (length (xs ++ x ∷ []) - n) (xs ++ x ∷ []), length-append xs (x ∷ []))

  sum_by-push_bounded-le : (w : A → ℕ) → sum_by w (push_bounded n xs x) ≤ sum_by w xs + w x
  unfolding push_bounded
  sum_by-push_bounded-le w = omega (
    arith,
    sum_by-drop-le w (length (xs ++ x ∷ []) - n) (xs ++ x ∷ []),
    sum_by-append w xs (x ∷ []),
  )

  All-push_bounded {κ} : (P : A → Type κ) → All P xs → P x → All P (push_bounded n xs x)
  unfolding push_bounded
  All-push_bounded P hs h =
      All-drop P (length (xs ++ x ∷ []) - n) (xs ++ x ∷ []) (All-append P xs (x ∷ []) hs (h, tt))

-- A change of the tabs that touches no counter.
relabel-IsBalanced :
    (sid : String) (f : TabTraffic → TabTraffic) (s : Traffic)
    → ((t : TabTraffic) → TabIsBalanced t → TabIsBalanced (f t))
    → ((t : TabTraffic) → (f t).bytes_received ≡ t.bytes_received)
    → ((t : TabTraffic) → (f t).requests ≡ t.requests)
    → IsBalanced s
    → IsBalanced (record s { tab_by_session = modify sid f s.tab_by_session })
relabel-IsBalanced sid f s keeps same_bytes same_requests h = record {
  bytes = h.bytes;
  requests = h.requests;
  capped = h.capped;
  open_tabs = AllValues-modify TabIsBalanced sid f s.tab_by_session h.open_tabs keeps;
  closed = h.closed;
  covers_bytes = omega (
    arith,
    h.covers_bytes,
    sum_values-modify-le tab_bytes sid f 0 s.tab_by_session (λ t. omega (arith, same_bytes t)),
  );
  covers_requests = omega (
    arith,
    h.covers_requests,
    sum_values-modify-le tab_requests sid f 0 s.tab_by_session
        (λ t. omega (arith, same_requests t)),
  );
  history = h.history;
  counted = h.counted;
}

pub set_tab_url-IsBalanced :
    (sid url : String) (s : Traffic) → IsBalanced s → IsBalanced (set_tab_url sid url s)
unfolding set_tab_url
set_tab_url-IsBalanced sid url s h = elim (Bool-cases (url == "")) [
  | inl empty ↦ rw empty h
  | inr given ↦
      rw given (relabel-IsBalanced sid _ s (λ t b. ground arith) (λ t. refl) (λ t. refl) h)
]

pub mark_reported-IsBalanced :
    (sid : String) (s : Traffic) → IsBalanced s → IsBalanced (mark_reported sid s)
unfolding mark_reported
mark_reported-IsBalanced sid s h =
    relabel-IsBalanced sid _ s
      (λ t b. record {
        bytes = b.bytes;
        requests = b.requests;
        capped = b.capped;
        reported = omega arith;
      })
      (λ t. refl) (λ t. refl) h

new_tab-IsBalanced :
    (sid : String) (tab : TabTraffic) (s : Traffic)
    → TabIsBalanced tab
    → tab.bytes_received ≡ 0
    → tab.requests ≡ 0
    → IsBalanced s
    → IsBalanced (record s { tab_by_session = insert sid tab s.tab_by_session })
new_tab-IsBalanced sid tab s new no_bytes no_requests h = record {
  bytes = h.bytes;
  requests = h.requests;
  capped = h.capped;
  open_tabs = AllValues-insert TabIsBalanced sid tab s.tab_by_session h.open_tabs new;
  closed = h.closed;
  covers_bytes =
      omega (arith, h.covers_bytes, sum_values-insert tab_bytes sid tab s.tab_by_session);
  covers_requests =
      omega (arith, h.covers_requests, sum_values-insert tab_requests sid tab s.tab_by_session);
  history = h.history;
  counted = h.counted;
}

pub open_tab-IsBalanced :
    (now sid target_id url : String) (s : Traffic)
    → IsBalanced s
    → IsBalanced (open_tab now sid target_id url s)
unfolding open_tab
open_tab-IsBalanced now sid target_id url s h = elim (Bool-cases (contains sid s.tab_by_session)) [
  | inl known ↦ rw known h
  | inr new ↦ rw new (
      new_tab-IsBalanced sid _ s
        (record { bytes = refl; requests = refl; capped = omega arith; reported = omega arith })
        refl refl h)
]

closed-IsBalanced :
    (now sid : String) (tab : TabTraffic) (s : Traffic) (inflight : Dict String InflightRequest)
    → lookup sid s.tab_by_session ≡ some tab
    → IsBalanced s
    → IsBalanced
        (finish_tab now
          (some tab)
          (record s { tab_by_session = erase sid s.tab_by_session; inflight = inflight })).1
unfolding finish_tab
closed-IsBalanced now sid tab s inflight found h =
    let was : TabIsBalanced tab =
      AllValues-lookup TabIsBalanced sid tab s.tab_by_session h.open_tabs found in
    let closed : TabTraffic = record tab { closed_at = some now } in
    record {
      bytes = h.bytes;
      requests = h.requests;
      capped = h.capped;
      open_tabs = AllValues-erase TabIsBalanced sid s.tab_by_session h.open_tabs;
      closed =
          All-push_bounded closed_tab_history s.closed_tabs closed TabIsBalanced h.closed (record {
            bytes = was.bytes;
            requests = was.requests;
            capped = was.capped;
            reported = was.reported;
          });
      covers_bytes = omega (
        arith,
        h.covers_bytes,
        rw found at (sum_values-erase tab_bytes sid s.tab_by_session),
        sum_by-push_bounded-le closed_tab_history s.closed_tabs closed tab_bytes,
      );
      covers_requests = omega (
        arith,
        h.covers_requests,
        rw found at (sum_values-erase tab_requests sid s.tab_by_session),
        sum_by-push_bounded-le closed_tab_history s.closed_tabs closed tab_requests,
      );
      history = length-push_bounded-le closed_tab_history s.closed_tabs closed;
      counted =
          omega
            (arith, h.counted, length-push_bounded-le_suc closed_tab_history s.closed_tabs closed);
    }

unknown-IsBalanced :
    (sid : String) (s : Traffic) (inflight : Dict String InflightRequest)
    → lookup sid s.tab_by_session ≡ none
    → IsBalanced s
    → IsBalanced (record s { tab_by_session = erase sid s.tab_by_session; inflight = inflight })
unknown-IsBalanced sid s inflight found h = record {
  bytes = h.bytes;
  requests = h.requests;
  capped = h.capped;
  open_tabs = AllValues-erase TabIsBalanced sid s.tab_by_session h.open_tabs;
  closed = h.closed;
  covers_bytes = omega (arith, h.covers_bytes, sum_values-erase tab_bytes sid s.tab_by_session);
  covers_requests =
      omega (arith, h.covers_requests, sum_values-erase tab_requests sid s.tab_by_session);
  history = h.history;
  counted = h.counted;
}

pub close_tab-IsBalanced :
    (now sid : String) (s : Traffic) → IsBalanced s → IsBalanced (close_tab now sid s).1
unfolding close_tab
close_tab-IsBalanced now sid s h = elim (Option-cases (lookup sid s.tab_by_session)) [
  | inl unknown ↦ rw unknown (
      unknown-IsBalanced sid s (erase_each (keys_where (of_session sid) s.inflight) s.inflight)
        unknown h)
  | inr (tab, found) ↦ rw found (
      closed-IsBalanced now sid tab s
        (erase_each (keys_where (of_session sid) s.inflight) s.inflight) found h)
]

close_each-IsBalanced :
    (clock : String → String) (sids : List String) (s : Traffic)
    → IsBalanced s
    → IsBalanced (close_each clock sids s).1
unfolding close_each
close_each-IsBalanced clock [] s h = h
close_each-IsBalanced clock (sid ∷ sids) s h =
    close_each-IsBalanced clock sids (close_tab (clock sid) sid s).1
      (close_tab-IsBalanced (clock sid) sid s h)

pub close_all-IsBalanced :
    (clock : String → String) (s : Traffic) → IsBalanced s → IsBalanced (close_all clock s).1
unfolding close_all
close_all-IsBalanced clock s h = close_each-IsBalanced clock (keys s.tab_by_session) s h
