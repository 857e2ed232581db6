-- ===== src/Modal/Waiting.antt =====
-- The wait for Chrome ends, at the first probe that succeeds or when the time is over.
use chrome_live.Base.{
  ℕ, zero, suc, ◌+◌, ◌*◌, ◌≤◌, ◌<◌, Bool, true, false, some, ◌≡◌, ◌⊎◌, inl, inr, refl, Bool-cases,
  arith, ltb,
}
use mathlib.Core.Path.{subst}
use chrome_live.Modal.{Probes, time_at, wait_cdp}

-- How the wait from a round `k` on has ended, at a round `n`: no probe before `n` has succeeded, and
-- either the probe at `n` does and starts before the deadline, or the deadline is there.
pub record Ends (probes : Probes) (start deadline k : ℕ) (result : Bool) : Type 0 where
  pub n : ℕ
  pub after : k ≤ n
  pub missed : (j : ℕ) → k ≤ j → j < n → (probes j).0 ≡ false
  pub final :
      ((result ≡ true) × ((probes n).0 ≡ true) × (time_at probes start n < deadline))
      ⊎ ((result ≡ false) × (deadline ≤ time_at probes start n))

later-Ends :
    (probes : Probes) (start deadline k : ℕ) (result : Bool)
    → (probes k).0 ≡ false
    → Ends probes start deadline (suc k) result
    → Ends probes start deadline k result
later-Ends probes start deadline k result h e = record {
  n = e.n;
  after = omega (arith, e.after);
  missed = λ j le lt. elim (Bool-cases (ltb k j)) [
    | inl less ↦ e.missed j (ground (arith, less)) lt
    | inr same ↦ let eq : k ≡ j = ground (arith, same, le) in subst (λ i. (probes i).0 ≡ false) eq h
  ];
  final = e.final;
}

wait_over :
    (probes : Probes) (start deadline fuel k : ℕ)
    → deadline ≤ time_at probes start k
    → (result : Bool) × (wait_cdp probes start deadline (suc fuel) k ≡ some result)
      × Ends probes start deadline k result
unfolding wait_cdp
wait_over probes start deadline fuel k over =
    let late : ltb (time_at probes start k) deadline ≡ false = ground (arith, over) in
    (
      false,
      rw late refl,
      record {
        n = k;
        after = omega arith;
        missed = λ j le lt. absurd (omega (arith, le, lt));
        final = inr (refl, over);
      },
    )

-- With enough fuel the wait returns: a round takes at least half a second, so it is enough to have one
-- round more than half seconds before the deadline. It returns true at the first probe that
-- succeeds, if that starts before the deadline, and otherwise false, when the deadline is there.
pub wait_cdp-Ends :
    (probes : Probes) (start deadline fuel k : ℕ)
    → deadline ≤ time_at probes start k + 500 * fuel
    → (result : Bool) × (wait_cdp probes start deadline (suc fuel) k ≡ some result)
      × Ends probes start deadline k result
unfolding wait_cdp
wait_cdp-Ends probes start deadline zero k enough =
    wait_over probes start deadline zero k (omega (arith, enough))
wait_cdp-Ends probes start deadline (suc fuel) k enough =
    elim (Bool-cases (ltb (time_at probes start k) deadline)) [
      | inr late ↦ wait_over probes start deadline (suc fuel) k (ground (arith, late))
      | inl early ↦ elim (Bool-cases (probes k).0) [
        | inl up ↦ (
          true,
          rw (early, up) refl,
          record {
            n = k;
            after = omega arith;
            missed = λ j le lt. absurd (omega (arith, le, lt));
            final = inl (refl, up, ground (arith, early));
          },
        )
        | inr down ↦
            let (result, returns, ends) =
              wait_cdp-Ends probes start deadline fuel (suc k) (omega (arith, enough)) in
            (result, rw (early, down) returns, later-Ends probes start deadline k result down ends)
      ]
    ]
