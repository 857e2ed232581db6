-- ===== src/Traffic/Buckets.antt =====
-- `_bucket`: which entry it returns, what a change of that entry adds, and how far a dict can grow.
use chrome_live.Base.{
  ℕ, ◌+◌, ◌≤◌, String, ◌≡◌, false, Option, none, some, arith, string_key, Bool-cases, Option-cases,
  inl, inr, length, leb, get_or,
}
use chrome_live.Dict.{lookup, insert, contains}
use chrome_live.Dict.Laws.{length-insert, length-insert_old, lookup-insert, lookup-insert_self}
use chrome_live.Dict.Sums.{weight, sum_values, sum_values-insert}
use chrome_live.Traffic.State.{HostTotals, Hosts, max_tracked_hosts, overflow_host}
use chrome_live.Traffic.Hosts.{fresh_totals, bucket_key, bucket}

abbrev present : Option HostTotals → ℕ
present = weight (λ _. 1)

-- The limit, and one more place that only the overflow entry can take.
abbrev pub IsCapped : Hosts → Type 0
IsCapped totals = length totals ≤ max_tracked_hosts + present (lookup overflow_host totals)

present-insert :
    (k : String) (v : HostTotals) (totals : Hosts)
    → present (lookup overflow_host totals) ≤ present (lookup overflow_host (insert k v totals))
present-insert k v totals = rw (lookup-insert k overflow_host v totals) (ground arith)

IsCapped-insert_old :
    (k : String) (v w : HostTotals) (totals : Hosts)
    → lookup k totals ≡ some w
    → IsCapped totals
    → IsCapped (insert k v totals)
IsCapped-insert_old k v w totals old h =
    omega (arith, length-insert_old k v {w = w} totals old, present-insert k v totals)

IsCapped-insert_below :
    (k : String) (v : HostTotals) (totals : Hosts)
    → leb max_tracked_hosts (length totals) ≡ false
    → IsCapped (insert k v totals)
IsCapped-insert_below k v totals h = ground (arith, length-insert k v totals)

IsCapped-insert_overflow :
    (v : HostTotals) (totals : Hosts)
    → lookup overflow_host totals ≡ none
    → IsCapped totals
    → IsCapped (insert overflow_host v totals)
IsCapped-insert_overflow v totals new h =
    rw (lookup-insert_self overflow_host v totals)
      (omega (arith, rw new at h, length-insert overflow_host v totals))

IsCapped-bucket_full :
    (totals : Hosts) (change : HostTotals → HostTotals)
    → IsCapped totals
    → IsCapped
        (insert overflow_host (change (get_or (lookup overflow_host totals) fresh_totals)) totals)
IsCapped-bucket_full totals change h = elim (Option-cases (lookup overflow_host totals)) [
  | inl new ↦ IsCapped-insert_overflow _ totals new h
  | inr (t, old) ↦ IsCapped-insert_old overflow_host _ t totals old h
]

IsCapped-bucket_new :
    (totals : Hosts) (host : String) (change : HostTotals → HostTotals)
    → lookup host totals ≡ none
    → IsCapped totals
    → IsCapped (bucket totals host change)
unfolding bucket contains
IsCapped-bucket_new totals host change new h =
    rw new (elim (Bool-cases (leb max_tracked_hosts (length totals))) [
      | inl full ↦ rw full (IsCapped-bucket_full totals change h)
      | inr room ↦ rw room (IsCapped-insert_below host _ totals room)
    ])

-- No change of a bucket takes a dict over its cap.
pub IsCapped-bucket :
    (totals : Hosts) (host : String) (change : HostTotals → HostTotals)
    → IsCapped totals
    → IsCapped (bucket totals host change)
unfolding bucket contains
IsCapped-bucket totals host change h = elim (Option-cases (lookup host totals)) [
  | inl new ↦ IsCapped-bucket_new totals host change new h
  | inr (t, old) ↦ rw (old, old) (IsCapped-insert_old host (change t) t totals old h)
]

module _ (w : HostTotals → ℕ) (n : ℕ) (change : HostTotals → HostTotals) where
  -- A change that adds `n` to an entry adds `n` to the sum.
  pub sum_values-bucket :
      (totals : Hosts) (host : String)
      → w fresh_totals ≡ 0
      → ((t : HostTotals) → w (change t) ≡ w t + n)
      → sum_values w (bucket totals host change) ≡ sum_values w totals + n
  unfolding bucket
  sum_values-bucket totals host empty step =
      let key = bucket_key totals host in
      elim (Option-cases (lookup key totals)) [
        | inl new ↦ rw new (
            omega (
              arith,
              rw new at (sum_values-insert w key (change fresh_totals) totals),
              step fresh_totals,
            ))
        | inr (t, old) ↦
            rw old (omega (arith, rw old at (sum_values-insert w key (change t) totals), step t))
      ]
