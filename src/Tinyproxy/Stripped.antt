-- ===== src/Tinyproxy/Stripped.antt =====
-- What is left of a line of the proxy.
use chrome_live.Base.{
  ℕ, Bool, true, false, not, Option, some, List, [], ◌∷◌, ◌++◌, ◌≡◌, refl, ap, ◌∙◌, nat_beq,
}
use chrome_live.Base.Text.{Text, text_key, is_space, starts}
use chrome_live.Tinyproxy.{
  Classes, is_plain, some_of, one_of, maybe_of, any_of, steps, fraction, prefix_steps, match_prefix,
  joined, strip_tinyproxy_timestamp,
}
use chrome_live.Tinyproxy.Prefix.{
  Run, run_text, Every, every, every-run, Stamp, put, cons_if, fraction_text, render, left-append,
  taken-append, some_of-put, one_of-yes, maybe_of-cons_if, steps_next, IsClasses, IsStamp,
  space_no_digit, fraction-text,
}

module _ (classes : Classes) (laws : IsClasses classes) (s : Stamp) (i : IsStamp classes s) where
  abbrev digit : ℕ → Bool
  digit = classes.is_digit

  digit_step :
      (c : ℕ) (fs : List (Text → Option Text)) (y : Text)
      → digit c ≡ true
      → steps (one_of digit ∷ fs) (c ∷ y) ≡ steps fs y
  digit_step c fs y h = steps_next (one_of digit) fs (c ∷ y) y (one_of-yes digit c y h)

  word_step :
      (c : ℕ) (fs : List (Text → Option Text)) (y : Text)
      → classes.is_word c ≡ true
      → steps (one_of classes.is_word ∷ fs) (c ∷ y) ≡ steps fs y
  word_step c fs y h =
      steps_next (one_of classes.is_word) fs (c ∷ y) y (one_of-yes classes.is_word c y h)

  char_step :
      (c : ℕ) (fs : List (Text → Option Text)) (y : Text)
      → nat_beq c c ≡ true
      → steps (one_of (nat_beq c) ∷ fs) (c ∷ y) ≡ steps fs y
  char_step c fs y h = steps_next (one_of (nat_beq c)) fs (c ∷ y) y (one_of-yes (nat_beq c) c y h)

  gap_step :
      (r : Run) (fs : List (Text → Option Text)) (c : ℕ) (y : Text)
      → Every is_space r
      → is_space c ≡ false
      → steps (some_of is_space ∷ fs) (put r (c ∷ y)) ≡ steps fs (c ∷ y)
  gap_step r fs c y h e =
      steps_next (some_of is_space) fs (put r (c ∷ y)) (c ∷ y) (some_of-put is_space r (c ∷ y) h e)

  message_step :
      (message : Text)
      → starts is_space message ≡ false
      → steps (any_of is_space ∷ []) (s.gap5 ++ message) ≡ some message
  unfolding steps any_of
  message_step message h = ap some (left-append is_space s.gap5 message i.gap5 h)

  process_steps :
      (message : Text)
      → starts is_space message ≡ false
      → steps
          (one_of (nat_beq 91)
            ∷ some_of digit
            ∷ one_of (nat_beq 93)
            ∷ one_of (nat_beq 58)
            ∷ any_of is_space
            ∷ [])
          (91 ∷ put s.process (93 ∷ 58 ∷ (s.gap5 ++ message)))
        ≡ some message
  process_steps message h =
      char_step 91 _ _ refl
      ∙ steps_next (some_of digit) _ _ _ (some_of-put digit s.process _ i.process laws.bracket)
      ∙ char_step 93 _ _ refl
      ∙ char_step 58 _ _ refl
      ∙ message_step message h

  time_steps :
      (message : Text)
      → starts is_space message ≡ false
      → steps
          (one_of digit
            ∷ one_of digit
            ∷ one_of (nat_beq 58)
            ∷ one_of digit
            ∷ one_of digit
            ∷ one_of (nat_beq 58)
            ∷ one_of digit
            ∷ one_of digit
            ∷ fraction digit
            ∷ some_of is_space
            ∷ one_of (nat_beq 91)
            ∷ some_of digit
            ∷ one_of (nat_beq 93)
            ∷ one_of (nat_beq 58)
            ∷ any_of is_space
            ∷ [])
          (s.hour1
            ∷ s.hour2
            ∷ 58
            ∷ s.minute1
            ∷ s.minute2
            ∷ 58
            ∷ s.second1
            ∷ s.second2
            ∷ fraction_text s.fraction_digits
                (put s.gap4 (91 ∷ put s.process (93 ∷ 58 ∷ (s.gap5 ++ message)))))
        ≡ some message
  unfolding is_space
  time_steps message h =
      digit_step s.hour1 _ _ i.hour1
      ∙ digit_step s.hour2 _ _ i.hour2
      ∙ char_step 58 _ _ refl
      ∙ digit_step s.minute1 _ _ i.minute1
      ∙ digit_step s.minute2 _ _ i.minute2
      ∙ char_step 58 _ _ refl
      ∙ digit_step s.second1 _ _ i.second1
      ∙ digit_step s.second2 _ _ i.second2
      ∙ steps_next (fraction digit) _ _ _
          (fraction-text classes laws s.fraction_digits s.gap4.first _ i.fraction_digits i.gap4.0)
      ∙ gap_step s.gap4 _ 91 _ i.gap4 refl
      ∙ process_steps message h

  prefix_steps_lem :
      (message : Text)
      → starts is_space message ≡ false
      → steps (prefix_steps classes) (
          put s.gap1 (
            s.month1
            ∷ s.month2
            ∷ s.month3
            ∷ put s.gap2 (
                s.day1
                ∷ cons_if s.day2 (
                    put s.gap3 (
                      s.hour1
                      ∷ s.hour2
                      ∷ 58
                      ∷ s.minute1
                      ∷ s.minute2
                      ∷ 58
                      ∷ s.second1
                      ∷ s.second2
                      ∷ fraction_text s.fraction_digits
                          (put s.gap4 (91 ∷ put s.process (93 ∷ 58 ∷ (s.gap5 ++ message)))))))))
        ≡ some message
  unfolding prefix_steps
  prefix_steps_lem message h =
      gap_step s.gap1 _ s.month1 _ i.gap1 (laws.word_plain s.month1 i.month1)
      ∙ word_step s.month1 _ _ i.month1
      ∙ word_step s.month2 _ _ i.month2
      ∙ word_step s.month3 _ _ i.month3
      ∙ gap_step s.gap2 _ s.day1 _ i.gap2 (laws.digit_plain s.day1 i.day1)
      ∙ digit_step s.day1 _ _ i.day1
      ∙ steps_next (maybe_of digit) _ _ _ (
          maybe_of-cons_if digit s.day2 _ i.day2
            (space_no_digit classes laws s.gap3.first i.gap3.0))
      ∙ gap_step s.gap3 _ s.hour1 _ i.gap3 (laws.digit_plain s.hour1 i.hour1)
      ∙ time_steps message h

  -- A line with a prefix is left with its level, one space, and its message, where the level has no
  -- space and the message does not start with one.
  pub strip-render :
      (level : Run) (message : Text)
      → Every is_plain level
      → starts is_space message ≡ false
      → strip_tinyproxy_timestamp classes (render level s message) ≡ run_text level ++ 32 ∷ message
  unfolding strip_tinyproxy_timestamp match_prefix joined
  strip-render level message plain h =
      let rest = put s.gap1 (
        s.month1
        ∷ s.month2
        ∷ s.month3
        ∷ put s.gap2 (
            s.day1
            ∷ cons_if s.day2 (
                put s.gap3 (
                  s.hour1
                  ∷ s.hour2
                  ∷ 58
                  ∷ s.minute1
                  ∷ s.minute2
                  ∷ 58
                  ∷ s.second1
                  ∷ s.second2
                  ∷ fraction_text s.fraction_digits
                      (put s.gap4 (91 ∷ put s.process (93 ∷ 58 ∷ (s.gap5 ++ message)))))))) in
      let ends : is_plain s.gap1.first ≡ false = ap not i.gap1.0 in
      let word : every is_plain (run_text level) ≡ true = every-run is_plain level plain in
      rw
        (
          taken-append is_plain (run_text level) rest word ends,
          left-append is_plain (run_text level) rest word ends,
        )
        (rw (prefix_steps_lem message h, taken-append is_plain (run_text level) rest word ends)
          refl)
