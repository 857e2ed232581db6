-- ===== src/Tinyproxy/Prefix.antt =====
-- The lines that tinyproxy writes, with their prefix taken off.
use chrome_live.Base.{
  ℕ, Bool, Bool-cases, inl, inr, true, false, Option, none, some, List, [], ◌∷◌, ◌++◌, ◌≡◌, refl,
  ap, arith, nat_beq, if◌then◌else◌,
}
use chrome_live.Base.Text.{Text, text_key, is_space, starts}
use chrome_live.Tinyproxy.{Classes, taken, left, some_of, one_of, maybe_of, steps, fraction}

-- one character or more
pub record Run : Type 0 where
  pub first : ℕ
  pub rest : Text

abbrev pub run_text : Run → Text
run_text r = r.first ∷ r.rest

unfoldable pub every : (ℕ → Bool) → Text → Bool
every p [] = true
every p (c ∷ cs) = let rest = every p cs in if p c then rest else false

abbrev pub Every : (ℕ → Bool) → Run → Type 0
Every p r = (p r.first ≡ true) × (every p r.rest ≡ true)

pub every-run : (p : ℕ → Bool) (r : Run) → Every p r → every p (run_text r) ≡ true
unfolding every
every-run p r h = rw (h.0) h.1

-- The date, the time and the process of a line, with the spaces before each and before the message.
pub record Stamp : Type 0 where
  pub gap1 : Run
  pub month1 : ℕ
  pub month2 : ℕ
  pub month3 : ℕ
  pub gap2 : Run
  pub day1 : ℕ
  pub day2 : Option ℕ
  pub gap3 : Run
  pub hour1 : ℕ
  pub hour2 : ℕ
  pub minute1 : ℕ
  pub minute2 : ℕ
  pub second1 : ℕ
  pub second2 : ℕ
  pub fraction_digits : Option Run
  pub gap4 : Run
  pub process : Run
  pub gap5 : Text

-- a condition on a value that may be missing
abbrev pub OnSome {ℓ κ} : {A : Type ℓ} → (A → Type κ) → Option A → Type κ
OnSome P none = Unit
OnSome P (some a) = P a

abbrev pub cons_if : Option ℕ → Text → Text
cons_if none x = x
cons_if (some c) x = c ∷ x

abbrev pub fraction_text : Option Run → Text → Text
fraction_text none x = x
fraction_text (some r) x = 46 ∷ r.first ∷ (r.rest ++ x)

abbrev pub put : Run → Text → Text
put r x = r.first ∷ (r.rest ++ x)

-- a line of the proxy
abbrev pub render : Run → Stamp → Text → Text
render level s message = put level (
    put s.gap1 (
      s.month1
      ∷ s.month2
      ∷ s.month3
      ∷ put s.gap2 (
          s.day1
          ∷ cons_if s.day2 (
              put s.gap3 (
                s.hour1
                ∷ s.hour2
                ∷ 58
                ∷ s.minute1
                ∷ s.minute2
                ∷ 58
                ∷ s.second1
                ∷ s.second2
                ∷ fraction_text s.fraction_digits
                    (put s.gap4 (91 ∷ put s.process (93 ∷ 58 ∷ (s.gap5 ++ message)))))))))

module _ (p : ℕ → Bool) where
  pub left-append : (x y : Text) → every p x ≡ true → starts p y ≡ false → left p (x ++ y) ≡ y
  unfolding left every
  left-append [] [] h s = refl
  left-append [] (c ∷ y) h s = ground (arith, s)
  left-append (c ∷ x) y h s = ground (arith, left-append x y)

  pub taken-append : (x y : Text) → every p x ≡ true → starts p y ≡ false → taken p (x ++ y) ≡ x
  unfolding taken every
  taken-append [] [] h s = refl
  taken-append [] (c ∷ y) h s = ground (arith, s)
  taken-append (c ∷ x) y h s = ground (arith, taken-append x y)

  pub some_of-put :
      (r : Run) (y : Text) → Every p r → starts p y ≡ false → some_of p (put r y) ≡ some y
  unfolding some_of
  some_of-put r y h s = rw (h.0) (ap some (left-append r.rest y h.1 s))

  pub one_of-yes : (c : ℕ) (y : Text) → p c ≡ true → one_of p (c ∷ y) ≡ some y
  unfolding one_of
  one_of-yes c y h = rw h refl

  pub maybe_of-cons_if :
      (d : Option ℕ) (y : Text)
      → OnSome (λ c. p c ≡ true) d
      → starts p y ≡ false
      → maybe_of p (cons_if d y) ≡ some y
  unfolding maybe_of
  maybe_of-cons_if none [] h s = refl
  maybe_of-cons_if none (c ∷ y) h s = rw s refl
  maybe_of-cons_if (some c) y h s = rw h refl

-- a step that matches
pub steps_next :
    (f : Text → Option Text) (fs : List (Text → Option Text)) (x y : Text)
    → f x ≡ some y
    → steps (f ∷ fs) x ≡ steps fs y
unfolding steps
steps_next f fs x y h = rw h refl

-- What is used of `\d` and `\w`: they match no space, and `\d` does not match `]`.
pub record IsClasses (classes : Classes) : Type 0 where
  pub digit_plain : (c : ℕ) → classes.is_digit c ≡ true → is_space c ≡ false
  pub word_plain : (c : ℕ) → classes.is_word c ≡ true → is_space c ≡ false
  pub bracket : classes.is_digit 93 ≡ false

pub record IsStamp (classes : Classes) (s : Stamp) : Type 0 where
  pub gap1 : Every is_space s.gap1
  pub gap2 : Every is_space s.gap2
  pub gap3 : Every is_space s.gap3
  pub gap4 : Every is_space s.gap4
  pub gap5 : every is_space s.gap5 ≡ true
  pub month1 : classes.is_word s.month1 ≡ true
  pub month2 : classes.is_word s.month2 ≡ true
  pub month3 : classes.is_word s.month3 ≡ true
  pub day1 : classes.is_digit s.day1 ≡ true
  pub day2 : OnSome (λ c. classes.is_digit c ≡ true) s.day2
  pub hour1 : classes.is_digit s.hour1 ≡ true
  pub hour2 : classes.is_digit s.hour2 ≡ true
  pub minute1 : classes.is_digit s.minute1 ≡ true
  pub minute2 : classes.is_digit s.minute2 ≡ true
  pub second1 : classes.is_digit s.second1 ≡ true
  pub second2 : classes.is_digit s.second2 ≡ true
  pub fraction_digits : OnSome (Every classes.is_digit) s.fraction_digits
  pub process : Every classes.is_digit s.process

module _ (classes : Classes) (laws : IsClasses classes) where
  pub space_no_digit : (c : ℕ) → is_space c ≡ true → classes.is_digit c ≡ false
  space_no_digit c h = elim (Bool-cases (classes.is_digit c)) [
    | inl e ↦ absurd (cc (laws.digit_plain c e))
    | inr e ↦ e
  ]

  space_no_point : (c : ℕ) → is_space c ≡ true → nat_beq c 46 ≡ false
  unfolding is_space
  space_no_point c h = ground (arith, h)

  pub fraction-text :
      (f : Option Run) (c : ℕ) (y : Text)
      → OnSome (Every classes.is_digit) f
      → is_space c ≡ true
      → fraction classes.is_digit (fraction_text f (c ∷ y)) ≡ some (c ∷ y)
  unfolding fraction
  fraction-text none c y h s = rw (space_no_point c s) refl
  fraction-text (some r) c y h s = some_of-put classes.is_digit r (c ∷ y) h (space_no_digit c s)

  starts-cons_if :
      (d : Option ℕ) (c : ℕ) (y : Text)
      → OnSome (λ e. is_space e ≡ false) d
      → is_space c ≡ false
      → starts is_space (cons_if d (c ∷ y)) ≡ false
  starts-cons_if none c y h s = s
  starts-cons_if (some e) c y h s = h
