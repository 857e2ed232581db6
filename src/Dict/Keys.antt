-- ===== src/Dict/Keys.antt =====
-- No key stands twice in a dict, and what a sweep over the keys of some entries leaves.

use chrome_live.Base.{
  ℕ, ◌+◌, ◌≡◌, refl, Bool, false, Option, none, some, List, [], ◌∷◌, arith, Key, ◌==◌, ==-refl,
  if◌then◌else◌, Bool-cases, inl, inr,
}
use chrome_live.Dict.Defs.{Dict, lookup, insert, erase, modify, elem, erase_each, keys_where}
use chrome_live.Dict.Sums.{sum_values, weight}
use chrome_live.Dict.Laws.{lookup-insert, lookup-erase, lookup-modify}

module _ {κ} {V : Type κ} where
  abbrev pub holds : (V → Bool) → Option V → Bool
  holds test none = false
  holds test (some v) = test v

  -- what stays of an entry when those that pass a test are swept
  abbrev pub unless : (V → Bool) → Option V → Option V
  unless test none = none
  unless test (some v) = if test v then none else some v

module _ {ℓ κ} {K : Type ℓ} {V : Type κ} ⦃key : Key K⦄ where
  -- No key stands twice.
  abbrev pub IsDict : Dict K V → Type κ
  IsDict [] = Unit
  IsDict ((k, v) ∷ d) = (lookup k d ≡ none) × IsDict d

  pub insert-IsDict : (k : K) (v : V) (d : Dict K V) → IsDict d → IsDict (insert k v d)
  unfolding insert lookup
  insert-IsDict k v [] h = (refl, tt)
  insert-IsDict k v ((i, u) ∷ d) h =
      ground
        (arith, key.same_iff i k, key.same_iff k i, insert-IsDict k v d h.1, lookup-insert k i v d)

  pub erase-IsDict : (k : K) (d : Dict K V) → IsDict d → IsDict (erase k d)
  unfolding erase
  erase-IsDict k [] h = tt
  erase-IsDict k ((i, u) ∷ d) h = ground (arith, erase-IsDict k d h.1, lookup-erase k i d)

  pub modify-IsDict : (k : K) (f : V → V) (d : Dict K V) → IsDict d → IsDict (modify k f d)
  unfolding modify
  modify-IsDict k f [] h = tt
  modify-IsDict k f ((i, u) ∷ d) h =
      ground
        (arith, key.same_iff i k, key.same_iff k i, modify-IsDict k f d h.1, lookup-modify k i f d)

  -- To drop a key that is not there changes nothing.
  pub erase_absent : (k : K) (d : Dict K V) → lookup k d ≡ none → erase k d ≡ d
  unfolding erase lookup
  erase_absent k [] h = refl
  erase_absent k ((i, u) ∷ d) h = ground (arith, erase_absent k d)

  pub erase-cons : (k : K) (v : V) (d : Dict K V) → lookup k d ≡ none → erase k ((k, v) ∷ d) ≡ d
  unfolding erase
  erase-cons k v d h = rw (==-refl k) (erase_absent k d h)

  pub erase_each-IsDict : (ks : List K) (d : Dict K V) → IsDict d → IsDict (erase_each ks d)
  unfolding erase_each
  erase_each-IsDict [] d h = h
  erase_each-IsDict (k ∷ ks) d h = erase_each-IsDict ks (erase k d) (erase-IsDict k d h)

  pub lookup-erase_each :
      (ks : List K) (j : K) (d : Dict K V)
      → lookup j (erase_each ks d) ≡ (if elem j ks then none else lookup j d)
  unfolding erase_each elem
  lookup-erase_each [] j d = refl
  lookup-erase_each (k ∷ ks) j d =
      ground (arith, lookup-erase_each ks j (erase k d), lookup-erase k j d)

  elem-keys_where :
      (test : V → Bool) (j : K) (d : Dict K V)
      → IsDict d
      → elem j (keys_where test d) ≡ holds test (lookup j d)
  unfolding elem keys_where lookup
  elem-keys_where test j [] h = refl
  elem-keys_where test j ((i, u) ∷ d) h = elim (Bool-cases (i == j)) [
    | inl here ↦ ground (arith, elem-keys_where test j d h.1, (key.same_iff i j).0 here)
    | inr there ↦ ground (arith, elem-keys_where test j d h.1)
  ]

  -- Sweeping the entries that pass a test drops these, and no other.
  pub lookup-sweep :
      (test : V → Bool) (j : K) (d : Dict K V)
      → IsDict d
      → lookup j (erase_each (keys_where test d) d) ≡ unless test (lookup j d)
  lookup-sweep test j d h =
      ground (arith, lookup-erase_each (keys_where test d) j d, elem-keys_where test j d h)

  -- What goes with a key that is dropped, exactly.
  pub sum_values-erase_exact :
      (w : V → ℕ) (k : K) (d : Dict K V)
      → IsDict d
      → sum_values w (erase k d) + weight w (lookup k d) ≡ sum_values w d
  unfolding erase lookup
  sum_values-erase_exact w k [] h = omega arith
  sum_values-erase_exact w k ((i, u) ∷ d) h = elim (Bool-cases (i == k)) [
    | inl here ↦ ground (arith, (key.same_iff i k).0 here, erase_absent i d h.0)
    | inr there ↦ ground (arith, sum_values-erase_exact w k d h.1)
  ]
