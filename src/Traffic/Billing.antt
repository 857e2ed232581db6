-- ===== src/Traffic/Billing.antt =====
-- What one request costs: the chunks that arrive for it and the total that it finishes with.
use chrome_live.Base.{
  ℕ, ◌+◌, String, ◌≡◌, refl, some, List, [], ◌∷◌, arith, string_key, ==-refl, Bool-cases, inl, inr,
}
use chrome_live.Base.Int.{ℤ, pos, pos_part, leb_ℤ}
use chrome_live.Base.Exec.{Exec, pure, ◌>>◌}
use chrome_live.Dict.{lookup}
use chrome_live.Dict.Laws.{lookup-modify}
use chrome_live.Traffic.State.{TabTraffic, InflightRequest, Traffic}
use chrome_live.Traffic.Hosts.{UrlLib}
use chrome_live.Traffic.Requests.{add_to_tab, add_bytes, on_data_received}

-- A request in flight on an open tab: `counted` bytes of it are in the tab's `bytes`, and those
-- in the process total.
pub record IsCharged (sid rid : String) (counted bytes requests total : ℕ) (s : Traffic)
    : Type 0 where
  pub request : InflightRequest
  pub tab : TabTraffic
  pub in_flight : lookup rid s.inflight ≡ some request
  pub tab_open : lookup sid s.tab_by_session ≡ some tab
  pub counted_eq : request.counted ≡ counted
  pub bytes_eq : tab.bytes_received ≡ bytes
  pub requests_eq : tab.requests ≡ requests
  pub total_eq : s.total_bytes ≡ total

module _ (sid host : String) (n : ℤ) (s : Traffic) where
  pub total-add_bytes : (add_bytes sid host n s).total_bytes ≡ s.total_bytes + pos_part n
  unfolding add_bytes
  total-add_bytes = ground arith

  pub inflight-add_bytes : (add_bytes sid host n s).inflight ≡ s.inflight
  unfolding add_bytes
  inflight-add_bytes = ground arith

  -- The tab of the session gets the bytes, and nothing else of it that is counted changes.
  pub open-add_bytes :
      (tab : TabTraffic)
      → lookup sid s.tab_by_session ≡ some tab
      → (tab' : TabTraffic) × (lookup sid (add_bytes sid host n s).tab_by_session ≡ some tab')
        × (tab'.bytes_received ≡ tab.bytes_received + pos_part n)
        × (tab'.requests ≡ tab.requests)
  unfolding add_bytes
  open-add_bytes tab found = elim (Bool-cases (leb_ℤ n (pos 0))) [
    | inl zero_or_less ↦ rw zero_or_less (tab, found, ground arith, refl)
    | inr positive ↦ rw positive (
      add_to_tab host (pos_part n) tab,
      ground (
        arith,
        lookup-modify sid sid (add_to_tab host (pos_part n)) s.tab_by_session,
        ==-refl sid,
      ),
      refl,
      refl,
    )
  ]

module _ (lib : UrlLib) (sid rid : String) where
  -- the handler, once for each chunk
  pub receive_chunks : List ℤ → Exec Traffic Unit
  receive_chunks [] = pure tt
  receive_chunks (n ∷ ns) = on_data_received lib sid rid n >> receive_chunks ns
