-- ===== src/Server/Order.antt =====
-- The order in which recordings are listed.
use mathlib.Core.List.{Perm}
use mathlib.Core.List.Perm
use chrome_live.Base.{true, false, List, [], ◌∷◌, ◌≡◌, refl, arith, All, Bool-cases, inl, inr}
use chrome_live.Base.Text.{Text}
use chrome_live.Server.{mp4, text_leb, place_name, newest_first}

text_leb_total : (x y : Text) → text_leb x y ≡ false → text_leb y x ≡ true
unfolding text_leb
text_leb_total [] y h = ground (arith, h)
text_leb_total (a ∷ x) [] h = refl
text_leb_total (a ∷ x) (b ∷ y) h = ground (arith, text_leb_total x y)

text_leb_trans : (x y z : Text) → text_leb x y ≡ true → text_leb y z ≡ true → text_leb x z ≡ true
unfolding text_leb
text_leb_trans [] y z h k = refl
text_leb_trans (a ∷ x) [] z h k = ground (arith, h)
text_leb_trans (a ∷ x) (b ∷ y) [] h k = ground (arith, k)
text_leb_trans (a ∷ x) (b ∷ y) (c ∷ z) h k = ground (arith, text_leb_trans x y z)

-- The name of the file of `y` does not come after that of `x`.
abbrev pub NotAfter : Text → Text → Type 0
NotAfter x y = text_leb (mp4 y) (mp4 x) ≡ true

-- the names in descending order
abbrev pub IsNewestFirst : List Text → Type 0
IsNewestFirst [] = Unit
IsNewestFirst (x ∷ xs) = All (NotAfter x) xs × IsNewestFirst xs

All-place_name {κ} :
    (P : Text → Type κ) (x : Text) (ys : List Text) → P x → All P ys → All P (place_name x ys)
unfolding place_name
All-place_name P x [] h hs = (h, tt)
All-place_name P x (y ∷ ys) h hs = elim (Bool-cases (text_leb (mp4 y) (mp4 x))) [
  | inl first ↦ rw first (h, hs)
  | inr later ↦ rw later (hs.0, All-place_name P x ys h hs.1)
]

All-NotAfter :
    (x y : Text) (zs : List Text) → NotAfter x y → All (NotAfter y) zs → All (NotAfter x) zs
All-NotAfter x y [] n h = tt
All-NotAfter x y (z ∷ zs) n h =
    (text_leb_trans (mp4 z) (mp4 y) (mp4 x) h.0 n, All-NotAfter x y zs n h.1)

place_name-IsNewestFirst :
    (x : Text) (ys : List Text) → IsNewestFirst ys → IsNewestFirst (place_name x ys)
unfolding place_name
place_name-IsNewestFirst x [] h = (tt, tt)
place_name-IsNewestFirst x (y ∷ ys) h = elim (Bool-cases (text_leb (mp4 y) (mp4 x))) [
  | inl first ↦ rw first ((first, All-NotAfter x y ys first h.0), h)
  | inr later ↦ rw later (
    All-place_name (NotAfter y) x ys (text_leb_total (mp4 y) (mp4 x) later) h.0,
    place_name-IsNewestFirst x ys h.1,
  )
]

pub newest_first-IsNewestFirst : (xs : List Text) → IsNewestFirst (newest_first xs)
unfolding newest_first
newest_first-IsNewestFirst [] = tt
newest_first-IsNewestFirst (x ∷ xs) =
    place_name-IsNewestFirst x (newest_first xs) (newest_first-IsNewestFirst xs)

place_name-perm : (x : Text) (ys : List Text) → Perm (place_name x ys) (x ∷ ys)
unfolding place_name
place_name-perm x [] = Perm.refl (x ∷ [])
place_name-perm x (y ∷ ys) = elim (Bool-cases (text_leb (mp4 y) (mp4 x))) [
  | inl first ↦ rw first (Perm.refl (x ∷ y ∷ ys))
  | inr later ↦ rw later (Perm.trans (Perm.cons y (place_name-perm x ys)) (Perm.swap x y ys))
]

pub newest_first-perm : (xs : List Text) → Perm (newest_first xs) xs
unfolding newest_first
newest_first-perm [] = Perm.refl []
newest_first-perm (x ∷ xs) =
    Perm.trans (place_name-perm x (newest_first xs)) (Perm.cons x (newest_first-perm xs))
