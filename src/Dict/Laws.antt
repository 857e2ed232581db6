-- ===== src/Dict/Laws.antt =====
-- What a lookup finds after each operation, in a form with no side condition.
use chrome_live.Base.{
  ◌+◌, ◌≤◌, ◌≡◌, refl, none, some, [], ◌∷◌, arith, Key, ◌==◌, ==-refl, length, if◌then◌else◌,
}
use mathlib.Core.Option
use chrome_live.Dict.Defs.{Dict, lookup, insert, erase, modify}

module _ {ℓ κ} {K : Type ℓ} {V : Type κ} ⦃key : Key K⦄ where
  pub lookup-insert :
      (k j : K) (v : V) (d : Dict K V)
      → lookup j (insert k v d) ≡ (if k == j then some v else lookup j d)
  unfolding lookup insert
  lookup-insert k j v [] = refl
  lookup-insert k j v ((i, w) ∷ d) =
      ground (arith, key.same_iff k j, key.same_iff i k, key.same_iff i j, lookup-insert k j v d)

  pub lookup-erase :
      (k j : K) (d : Dict K V) → lookup j (erase k d) ≡ (if k == j then none else lookup j d)
  unfolding lookup erase
  lookup-erase k j [] = ground arith
  lookup-erase k j ((i, w) ∷ d) =
      ground (arith, key.same_iff k j, key.same_iff i k, key.same_iff i j, lookup-erase k j d)

  pub lookup-insert_self : (k : K) (v : V) (d : Dict K V) → lookup k (insert k v d) ≡ some v
  lookup-insert_self k v d = rw (lookup-insert k k v d) (rw (==-refl k))

  pub lookup-erase_self : (k : K) (d : Dict K V) → lookup k (erase k d) ≡ none
  lookup-erase_self k d = rw (lookup-erase k k d) (rw (==-refl k))

  -- An assignment adds at most one entry, and none to a key that is there.
  pub length-insert : (k : K) (v : V) (d : Dict K V) → length (insert k v d) ≤ length d + 1
  unfolding insert
  length-insert k v [] = omega arith
  length-insert k v ((i, w) ∷ d) = ground (arith, length-insert k v d)

  pub length-insert_old :
      (k : K) (v : V) {w : V} (d : Dict K V)
      → lookup k d ≡ some w
      → length (insert k v d) ≡ length d
  unfolding insert lookup
  length-insert_old k v {w} [] h = cc
  length-insert_old k v {w} ((i, u) ∷ d) h = ground (arith, length-insert_old k v {w = w} d)

  pub length-erase-le : (k : K) (d : Dict K V) → length (erase k d) ≤ length d
  unfolding erase
  length-erase-le k [] = omega arith
  length-erase-le k ((i, w) ∷ d) = ground (arith, length-erase-le k d)

  -- A dict in which nothing is found is empty.
  pub eq-nil_of_lookup : (d : Dict K V) → ((k : K) → lookup k d ≡ none) → d ≡ []
  unfolding lookup
  eq-nil_of_lookup [] h = refl
  eq-nil_of_lookup ((i, w) ∷ d) h = ground (arith, ==-refl i, h i)

  pub lookup-modify :
      (k j : K) (f : V → V) (d : Dict K V)
      → lookup j (modify k f d) ≡ (if k == j then Option.map f (lookup j d) else lookup j d)
  unfolding lookup modify
  lookup-modify k j f [] = ground arith
  lookup-modify k j f ((i, w) ∷ d) =
      ground (arith, key.same_iff k j, key.same_iff i k, key.same_iff i j, lookup-modify k j f d)

  pub length-modify : (k : K) (f : V → V) (d : Dict K V) → length (modify k f d) ≡ length d
  unfolding modify
  length-modify k f [] = refl
  length-modify k f ((i, w) ∷ d) = ground (arith, length-modify k f d)
