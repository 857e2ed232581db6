-- ===== src/Dict/Entries.antt =====
-- The entries of a dict, as they are found in a dict that changes.
use chrome_live.Base.{◌≡◌, none, some, [], ◌∷◌, arith, Key, ==-refl}
use chrome_live.Dict.Defs.{Dict, lookup, modify}
use chrome_live.Dict.Keys.{IsDict}
use chrome_live.Dict.Laws.{lookup-modify}

module _ {ℓ κ} {K : Type ℓ} {V : Type κ} ⦃key : Key K⦄ where
  -- A lookup in `e` finds each entry of `d`.
  abbrev pub AllFound : Dict K V → Dict K V → Type κ
  AllFound [] e = Unit
  AllFound ((k, v) ∷ d) e = (lookup k e ≡ some v) × AllFound d e

  AllFound-cons :
      (i : K) (u : V) (d e : Dict K V) → lookup i d ≡ none → AllFound d e → AllFound d ((i, u) ∷ e)
  unfolding lookup
  AllFound-cons i u [] e h found = tt
  AllFound-cons i u ((k, v) ∷ d) e h found =
      ground (arith, key.same_iff i k, key.same_iff k i, AllFound-cons i u d e, found.0, found.1)

  pub AllFound-refl : (d : Dict K V) → IsDict d → AllFound d d
  unfolding lookup
  AllFound-refl [] h = tt
  AllFound-refl ((k, v) ∷ d) h = (rw (==-refl k), AllFound-cons k v d d h.0 (AllFound-refl d h.1))

  pub AllFound-modify :
      (k : K) (f : V → V) (d e : Dict K V)
      → lookup k d ≡ none
      → AllFound d e
      → AllFound d (modify k f e)
  unfolding lookup
  AllFound-modify k f [] e h found = tt
  AllFound-modify k f ((i, v) ∷ d) e h found = ground (
    arith,
    key.same_iff i k,
    key.same_iff k i,
    AllFound-modify k f d e,
    found.0,
    found.1,
    lookup-modify k i f e,
  )
