-- ===== src/Base/Sorting.antt =====
-- Python's `sorted(xs, key=weight, reverse=True)`: descending, and stable.
use mathlib.Core.Path.{◌≡◌, refl}
use mathlib.Core.List.{List, [], ◌∷◌, Perm}
use mathlib.Core.List.Perm
use Prim.Native.Nat.{ℕ, zero, suc, ◌≤◌}
use native.Mathlib.Omega.{arith}
use chrome_live.Base.Tests.{leb, leb→le, if◌then◌else◌, Bool-cases}
use mathlib.Core.Logic.{inl, inr}
use chrome_live.Base.Lists.{All, length, take, drop}

module _ {ℓ} {A : Type ℓ} (weight : A → ℕ) where
  -- an item that stood first goes before those of its weight
  unfoldable pub place : A → List A → List A
  place x [] = x ∷ []
  place x (y ∷ ys) = if leb (weight y) (weight x) then x ∷ y ∷ ys else y ∷ place x ys

  unfoldable pub sort_desc : List A → List A
  unfolding place
  sort_desc [] = []
  sort_desc (x ∷ xs) = place x (sort_desc xs)

  -- No item is heavier than one before it.
  abbrev pub IsDescending : List A → Type ℓ
  IsDescending [] = Unit
  IsDescending (x ∷ xs) = All (λ y. weight y ≤ weight x) xs × IsDescending xs

  All-place {κ} : (P : A → Type κ) (x : A) (ys : List A) → P x → All P ys → All P (place x ys)
  unfolding place
  All-place P x [] h hs = (h, tt)
  All-place P x (y ∷ ys) h hs = elim (Bool-cases (leb (weight y) (weight x))) [
    | inl first ↦ rw first (h, hs)
    | inr later ↦ rw later (hs.0, All-place P x ys h hs.1)
  ]

  All-le : (n m : ℕ) (ys : List A) → n ≤ m → All (λ y. weight y ≤ n) ys → All (λ y. weight y ≤ m) ys
  All-le n m [] le h = tt
  All-le n m (y ∷ ys) le h = (omega (arith, h.0), All-le n m ys le h.1)

  place-IsDescending : (x : A) (ys : List A) → IsDescending ys → IsDescending (place x ys)
  unfolding place
  place-IsDescending x [] h = (tt, tt)
  place-IsDescending x (y ∷ ys) h = elim (Bool-cases (leb (weight y) (weight x))) [
    | inl first ↦
        let le = leb→le (weight y) (weight x) first in
        rw first ((le, All-le (weight y) (weight x) ys le h.0), h)
    | inr later ↦
        rw later (
          All-place (λ z. weight z ≤ weight y) x ys (ground arith) h.0,
          place-IsDescending x ys h.1,
        )
  ]

  pub sort_desc-IsDescending : (xs : List A) → IsDescending (sort_desc xs)
  unfolding sort_desc
  sort_desc-IsDescending [] = tt
  sort_desc-IsDescending (x ∷ xs) = place-IsDescending x (sort_desc xs) (sort_desc-IsDescending xs)

  place-perm : (x : A) (ys : List A) → Perm (place x ys) (x ∷ ys)
  unfolding place
  place-perm x [] = Perm.refl (x ∷ [])
  place-perm x (y ∷ ys) = elim (Bool-cases (leb (weight y) (weight x))) [
    | inl first ↦ rw first (Perm.refl (x ∷ y ∷ ys))
    | inr later ↦ rw later (Perm.trans (Perm.cons y (place-perm x ys)) (Perm.swap x y ys))
  ]

  pub sort_desc-perm : (xs : List A) → Perm (sort_desc xs) xs
  unfolding sort_desc
  sort_desc-perm [] = Perm.refl []
  sort_desc-perm (x ∷ xs) =
      Perm.trans (place-perm x (sort_desc xs)) (Perm.cons x (sort_desc-perm xs))

  All-drop_le :
      (m n : ℕ) (xs : List A) → All (λ y. weight y ≤ m) xs → All (λ y. weight y ≤ m) (drop n xs)
  All-drop_le m zero xs h = h
  All-drop_le m (suc n) [] h = tt
  All-drop_le m (suc n) (x ∷ xs) h = All-drop_le m n xs h.1

  All-take_le :
      (m n : ℕ) (xs : List A) → All (λ y. weight y ≤ m) xs → All (λ y. weight y ≤ m) (take n xs)
  All-take_le m zero xs h = tt
  All-take_le m (suc n) [] h = tt
  All-take_le m (suc n) (x ∷ xs) h = (h.0, All-take_le m n xs h.1)

  -- What is cut off a descending list is no heavier than what is kept.
  pub take_heaviest :
      (n : ℕ) (xs : List A)
      → IsDescending xs
      → All (λ x. All (λ y. weight y ≤ weight x) (drop n xs)) (take n xs)
  take_heaviest zero xs h = tt
  take_heaviest (suc n) [] h = tt
  take_heaviest (suc n) (x ∷ xs) h = (All-drop_le (weight x) n xs h.0, take_heaviest n xs h.1)

  pub take-IsDescending : (n : ℕ) (xs : List A) → IsDescending xs → IsDescending (take n xs)
  take-IsDescending zero xs h = tt
  take-IsDescending (suc n) [] h = tt
  take-IsDescending (suc n) (x ∷ xs) h =
      (All-take_le (weight x) n xs h.0, take-IsDescending n xs h.1)

  length-place : (x : A) (ys : List A) → length (place x ys) ≡ suc (length ys)
  unfolding place
  length-place x [] = refl
  length-place x (y ∷ ys) = ground (arith, length-place x ys)

  pub length-sort_desc : (xs : List A) → length (sort_desc xs) ≡ length xs
  unfolding sort_desc
  length-sort_desc [] = refl
  length-sort_desc (x ∷ xs) = omega (arith, length-place x (sort_desc xs), length-sort_desc xs)
