-- ===== src/Dict/Defs.antt =====
-- The operations of a `dict` that the program uses.
use chrome_live.Base.{
  Bool, false, ◌||◌, Option, none, some, List, [], ◌∷◌, map, Key, ◌==◌, is_some, if◌then◌else◌,
}

abbrev pub Dict {ℓ κ} : Type ℓ → Type κ → Type (ℓ ⊔ κ)
Dict K V = List (K × V)

module _ {ℓ κ} {K : Type ℓ} {V : Type κ} where
  -- `list(d)`
  abbrev pub keys : Dict K V → List K
  keys = map (λ p. p.0)

  -- `d.values()`
  abbrev pub values : Dict K V → List V
  values = map (λ p. p.1)

module _ {ℓ} {K : Type ℓ} ⦃key : Key K⦄ where
  -- `k in ks`
  unfoldable pub elem : K → List K → Bool
  elem k [] = false
  elem k (j ∷ ks) = j == k || elem k ks

module _ {ℓ κ} {K : Type ℓ} {V : Type κ} ⦃key : Key K⦄ where
  -- `d.get(k)`
  unfoldable pub lookup : K → Dict K V → Option V
  lookup k [] = none
  lookup k ((j, v) ∷ d) = if j == k then some v else lookup k d

  -- `d[k] = v`
  unfoldable pub insert : K → V → Dict K V → Dict K V
  insert k v [] = (k, v) ∷ []
  insert k v ((j, w) ∷ d) = if j == k then (j, v) ∷ d else (j, w) ∷ insert k v d

  -- `d.pop(k, None)`, for the dict that it leaves
  unfoldable pub erase : K → Dict K V → Dict K V
  erase k [] = []
  erase k ((j, w) ∷ d) = let rest = erase k d in if j == k then rest else (j, w) ∷ rest

  -- `k in d`
  unfoldable pub contains : K → Dict K V → Bool
  unfolding lookup
  contains k d = is_some (lookup k d)

  -- a change of the object `d[k]`, where there is one
  unfoldable pub modify : K → (V → V) → Dict K V → Dict K V
  modify k f [] = []
  modify k f ((j, w) ∷ d) = if j == k then (j, f w) ∷ d else (j, w) ∷ modify k f d

  -- `for k in ks: d.pop(k, None)`
  unfoldable pub erase_each : List K → Dict K V → Dict K V
  erase_each [] d = d
  erase_each (k ∷ ks) d = erase_each ks (erase k d)

module _ {ℓ κ} {K : Type ℓ} {V : Type κ} where
  -- `[k for k, v in d.items() if test(v)]`
  unfoldable pub keys_where : (V → Bool) → Dict K V → List K
  keys_where test [] = []
  keys_where test ((k, v) ∷ d) = let rest = keys_where test d in if test v then k ∷ rest else rest
