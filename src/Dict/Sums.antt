-- ===== src/Dict/Sums.antt =====
-- A measure summed over the values of a dict, and a property of all of them, under each operation.
use chrome_live.Base.{
  ℕ, ◌+◌, ◌≤◌, ◌≡◌, Option, none, some, [], ◌∷◌, arith, Key, ◌==◌, Bool-cases, inl, inr, some-inj,
}
use mathlib.Core.Path.{subst}
use chrome_live.Dict.Defs.{Dict, lookup, insert, erase, modify}

module _ {ℓ κ} {K : Type ℓ} {V : Type κ} where
  abbrev pub sum_values : (V → ℕ) → Dict K V → ℕ
  sum_values w [] = 0
  sum_values w ((j, v) ∷ d) = w v + sum_values w d

  abbrev pub AllValues {μ} : (V → Type μ) → Dict K V → Type μ
  AllValues P [] = Unit
  AllValues P ((j, v) ∷ d) = P v × AllValues P d

module _ {κ} {V : Type κ} where
  -- the weight of what is found, zero where nothing is
  abbrev pub weight : (V → ℕ) → Option V → ℕ
  weight w none = 0
  weight w (some v) = w v

module _ {ℓ κ} {K : Type ℓ} {V : Type κ} ⦃key : Key K⦄ (w : V → ℕ) where
  pub sum_values-insert :
      (k : K) (v : V) (d : Dict K V)
      → sum_values w (insert k v d) + weight w (lookup k d) ≡ sum_values w d + w v
  unfolding insert lookup
  sum_values-insert k v [] = omega arith
  sum_values-insert k v ((i, u) ∷ d) = ground (arith, sum_values-insert k v d)

  -- A new value that weighs nothing adds nothing.
  pub sum_values-insert_new :
      (k : K) (v : V) (d : Dict K V)
      → lookup k d ≡ none
      → w v ≡ 0
      → sum_values w (insert k v d) ≡ sum_values w d
  sum_values-insert_new k v d new light = ground (arith, sum_values-insert k v d)

  pub sum_values-erase :
      (k : K) (d : Dict K V) → sum_values w (erase k d) + weight w (lookup k d) ≤ sum_values w d
  unfolding erase lookup
  sum_values-erase k [] = omega arith
  sum_values-erase k ((i, u) ∷ d) = ground (arith, sum_values-erase k d)

module _ {ℓ κ μ} {K : Type ℓ} {V : Type κ} ⦃key : Key K⦄ (P : V → Type μ) where
  pub AllValues-lookup : (k : K) (v : V) (d : Dict K V) → AllValues P d → lookup k d ≡ some v → P v
  unfolding lookup
  AllValues-lookup k v [] h p = cc
  AllValues-lookup k v ((i, u) ∷ d) h p = elim (Bool-cases (i == k)) [
    | inl here ↦ subst P (some-inj (rw here at p)) h.0
    | inr there ↦ AllValues-lookup k v d h.1 (rw there at p)
  ]

  pub AllValues-insert :
      (k : K) (v : V) (d : Dict K V) → AllValues P d → P v → AllValues P (insert k v d)
  unfolding insert
  AllValues-insert k v [] h p = (p, tt)
  AllValues-insert k v ((i, u) ∷ d) h p = ground (arith, AllValues-insert k v d h.1 p)

  pub AllValues-erase : (k : K) (d : Dict K V) → AllValues P d → AllValues P (erase k d)
  unfolding erase
  AllValues-erase k [] h = tt
  AllValues-erase k ((i, u) ∷ d) h = ground (arith, AllValues-erase k d h.1)

  pub AllValues-modify :
      (k : K) (f : V → V) (d : Dict K V)
      → AllValues P d
      → ((v : V) → P v → P (f v))
      → AllValues P (modify k f d)
  unfolding modify
  AllValues-modify k f [] h step = tt
  AllValues-modify k f ((i, u) ∷ d) h step = elim (Bool-cases (i == k)) [
    | inl here ↦ rw here (step u h.0, h.1)
    | inr there ↦ rw there (h.0, AllValues-modify k f d h.1 step)
  ]

module _ {ℓ κ} {K : Type ℓ} {V : Type κ} ⦃key : Key K⦄ (w : V → ℕ) where
  -- One object grows by `n` at most.
  pub sum_values-modify-le :
      (k : K) (f : V → V) (n : ℕ) (d : Dict K V)
      → ((v : V) → w (f v) ≤ w v + n)
      → sum_values w (modify k f d) ≤ sum_values w d + n
  unfolding modify
  sum_values-modify-le k f n [] step = omega arith
  sum_values-modify-le k f n ((i, u) ∷ d) step =
      ground (arith, step u, sum_values-modify-le k f n d step)

  -- A change of one object, exactly.
  pub sum_values-modify :
      (k : K) (f : V → V) (d : Dict K V)
      → sum_values w (modify k f d) + weight w (lookup k d)
        ≡ sum_values w d + weight (λ v. w (f v)) (lookup k d)
  unfolding modify lookup
  sum_values-modify k f [] = omega arith
  sum_values-modify k f ((i, u) ∷ d) = ground (arith, sum_values-modify k f d)
