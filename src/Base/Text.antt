-- ===== src/Base/Text.antt =====
-- Text as a list of code points, where the program walks characters.
use Prim.Native.Char.{code}
use Prim.Native.Nat.{ℕ}
use Prim.Native.String.{String}
use mathlib.Core.Path.{◌≡◌, refl, ap, ◌∙◌}
use mathlib.Core.Logic.{◌↔◌}
use mathlib.Core.Bool.{Bool, true, false, ◌&&◌, ◌||◌}
use mathlib.Core.Option.{Option, none, some}
use mathlib.Core.List.{List, [], ◌∷◌, ◌++◌}
use native.Mathlib.Omega.{arith}
use chrome_live.Base.Tests.{nat_beq, leb, if◌then◌else◌}
use chrome_live.Base.Equality.{Key}

abbrev pub Text : Type 0
Text = List ℕ

abbrev pub codes : String → Text
codes String.[] = []
codes (String.◌∷◌ c s) = code c ∷ codes s

abbrev pub text_beq : Text → Text → Bool
text_beq [] [] = true
text_beq [] (y ∷ ys) = false
text_beq (x ∷ xs) [] = false
text_beq (x ∷ xs) (y ∷ ys) = nat_beq x y && text_beq xs ys

text_beq-eq : (x y : Text) → text_beq x y ≡ true → x ≡ y
text_beq-eq [] [] h = refl
text_beq-eq [] (y ∷ ys) h = cc
text_beq-eq (x ∷ xs) [] h = cc
text_beq-eq (x ∷ xs) (y ∷ ys) h = ground (arith, text_beq-eq xs ys)

text_beq_refl : (x : Text) → text_beq x x ≡ true
text_beq_refl [] = refl
text_beq_refl (x ∷ xs) = ground (arith, text_beq_refl xs)

pub text_beq_iff : (x y : Text) → (text_beq x y ≡ true) ↔ (x ≡ y)
text_beq_iff x y = (text_beq-eq x y, λ e. rw e (text_beq_refl y))

instance abbrev pub text_key : Key Text
text_key = record { same = text_beq; same_iff = text_beq_iff }

-- `str.isspace` of one character
unfoldable pub is_space : ℕ → Bool
is_space c =
    (leb 9 c && leb c 13)
    || (leb 28 c && leb c 32)
    || nat_beq c 0x85
    || nat_beq c 0xa0
    || nat_beq c 0x1680
    || (leb 0x2000 c && leb c 0x200a)
    || nat_beq c 0x2028
    || nat_beq c 0x2029
    || nat_beq c 0x202f
    || nat_beq c 0x205f
    || nat_beq c 0x3000

module _ (p : ℕ → Bool) where
  -- whether the first character passes a test
  abbrev pub starts : Text → Bool
  starts [] = false
  starts (c ∷ cs) = p c

  -- whether the last character passes a test
  abbrev pub ends : Text → Bool
  ends [] = false
  ends (c ∷ []) = p c
  ends (c ∷ (d ∷ cs)) = ends (d ∷ cs)

  unfoldable pub lstrip_by : Text → Text
  lstrip_by [] = []
  lstrip_by (c ∷ cs) = let rest = lstrip_by cs in if p c then rest else c ∷ cs

  abbrev pub drop_last : ℕ → Text → Text
  drop_last c [] = if p c then [] else c ∷ []
  drop_last c (d ∷ cs) = c ∷ (d ∷ cs)

  unfoldable pub rstrip_by : Text → Text
  rstrip_by [] = []
  rstrip_by (c ∷ cs) = drop_last c (rstrip_by cs)

  unfoldable pub strip_by : Text → Text
  unfolding lstrip_by rstrip_by
  strip_by x = rstrip_by (lstrip_by x)

  pub lstrip_by-same : (x : Text) → starts x ≡ false → lstrip_by x ≡ x
  unfolding lstrip_by
  lstrip_by-same [] h = refl
  lstrip_by-same (c ∷ cs) h = rw h refl

  pub rstrip_by-same : (x : Text) → ends x ≡ false → rstrip_by x ≡ x
  unfolding rstrip_by
  rstrip_by-same [] h = refl
  rstrip_by-same (c ∷ []) h = rw h refl
  rstrip_by-same (c ∷ (d ∷ cs)) h = ap (drop_last c) (rstrip_by-same (d ∷ cs) h)

  -- A text that neither starts nor ends with what is stripped stays.
  pub strip_by-same : (x : Text) → starts x ≡ false → ends x ≡ false → strip_by x ≡ x
  unfolding strip_by
  strip_by-same x s e = rw (lstrip_by-same x s) (rstrip_by-same x e)

  pub rstrip_by-concat : (x : Text) (c : ℕ) → p c ≡ true → rstrip_by (x ++ c ∷ []) ≡ rstrip_by x
  unfolding rstrip_by
  rstrip_by-concat [] c h = rw h refl
  rstrip_by-concat (d ∷ x) c h = ap (drop_last d) (rstrip_by-concat x c h)

  -- What is stripped off both ends.
  pub strip_by-quoted :
      (c : ℕ) (x : Text)
      → p c ≡ true
      → starts x ≡ false
      → ends x ≡ false
      → strip_by (c ∷ (x ++ c ∷ [])) ≡ x
  unfolding strip_by lstrip_by
  strip_by-quoted c [] h s e = ground (arith, h)
  strip_by-quoted c (d ∷ x) h s e =
      rw (h, s) (rstrip_by-concat (d ∷ x) c h ∙ rstrip_by-same (d ∷ x) e)

  pub ends-append : (x : Text) (c : ℕ) (y : Text) → ends (x ++ c ∷ y) ≡ ends (c ∷ y)
  ends-append [] c y = refl
  ends-append (d ∷ []) c y = refl
  ends-append (d ∷ (e ∷ x)) c y = ends-append (e ∷ x) c y

-- `s.strip()`
abbrev pub strip : Text → Text
strip = strip_by is_space

-- whether a character stands in a text
unfoldable pub has_char : ℕ → Text → Bool
has_char c [] = false
has_char c (d ∷ x) = nat_beq d c || has_char c x

-- `s.split(c, 1)`, where `c` stands in `s`; otherwise `none`
unfoldable pub split_once : ℕ → Text → Option (Text × Text)
split_once c [] = none
split_once c (d ∷ x) =
    let rest = split_once c x in
    if nat_beq d c
    then some ([], x)
    else elim rest [ none ↦ none | some (before, after) ↦ some (d ∷ before, after) ]

pub split_once-append :
    (c : ℕ) (x y : Text) → has_char c x ≡ false → split_once c (x ++ c ∷ y) ≡ some (x, y)
unfolding split_once has_char
split_once-append c [] y h = ground arith
split_once-append c (d ∷ x) y h = ground (arith, split_once-append c x y)

-- the lines of a text, each with its end
unfoldable pub split_lines : Text → List Text
split_lines [] = []
split_lines (c ∷ cs) =
    let rest = split_lines cs in
    if nat_beq c 10
    then (c ∷ []) ∷ rest
    else elim rest [ [] ↦ (c ∷ []) ∷ [] | ◌∷◌ line more ↦ (c ∷ line) ∷ more ]

pub split_lines-line :
    (line rest : Text)
    → has_char 10 line ≡ false
    → split_lines (line ++ 10 ∷ rest) ≡ (line ++ 10 ∷ []) ∷ split_lines rest
unfolding split_lines has_char
split_lines-line [] rest h = refl
split_lines-line (c ∷ line) rest h = ground (arith, split_lines-line line rest)

-- Line ends as text files are read: a carriage return, with the line feed after it, is a line feed.
unfoldable pub universal_newlines : Text → Text
universal_newlines [] = []
universal_newlines (c ∷ cs) =
    let rest = universal_newlines cs in
    if nat_beq c 13 then (if starts (nat_beq 10) cs then rest else 10 ∷ rest) else c ∷ rest

pub universal_newlines-line :
    (line rest : Text)
    → has_char 13 line ≡ false
    → universal_newlines (line ++ 10 ∷ rest) ≡ line ++ 10 ∷ universal_newlines rest
unfolding universal_newlines has_char
universal_newlines-line [] rest h = refl
universal_newlines-line (c ∷ line) rest h = ground (arith, universal_newlines-line line rest)

pub has_char-append : (c : ℕ) (x y : Text) → has_char c (x ++ y) ≡ has_char c x || has_char c y
unfolding has_char
has_char-append c [] y = refl
has_char-append c (d ∷ x) y = ground (arith, has_char-append c x y)
