-- ===== src/Thumbnail/Queue.antt =====
-- Captures are answered one by one, in order, and none is forgotten.
use mathlib.Core.List.{map-append, append-nil, append_assoc}
use mathlib.Core.Path.{subst, ap₂}
use chrome_live.Base.{
  ℕ, ◌≤◌, ◌≡◌, refl, ap, sym, ◌∙◌, Option, none, some, List, [], ◌∷◌, ◌++◌, map, length, arith,
  Bool-cases, inl, inr,
}
use chrome_live.Base.Exec.{Result, ok, err}
use chrome_live.Thumbnail.{
  Cached, Capture, Thumbnailer, give, is_fresh, look, admit, enter_lock, conclude, finish_shot,
}

-- the captures that wait, by their numbers
abbrev pub queued : List Capture → List ℕ
queued = map (λ c. c.id)

module _ {J : Type 0} where
  -- One capture enters, and what it waits for comes back or raises.
  unfoldable pub round : ℕ × ℕ × Result J → Thumbnailer J → Thumbnailer J
  unfolding finish_shot enter_lock
  round (entered, finished, r) t = finish_shot finished r (enter_lock entered t)

  unfoldable pub rounds : List (ℕ × ℕ × Result J) → Thumbnailer J → Thumbnailer J
  unfolding round
  rounds [] t = t
  rounds (x ∷ xs) t = rounds xs (round x t)

  abbrev pub answered : Thumbnailer J → List ℕ
  answered t = map (λ r. r.id) t.returned

  -- the queue after the capture `c` has been answered
  record Passed (c : Capture) (rest : List Capture) (t t' : Thumbnailer J) : Type 0 where
    waiting : t'.waiting ≡ rest
    free : t'.shooting ≡ none
    answer : answered t' ≡ answered t ++ c.id ∷ []

  conclude-Passed :
      (now : ℕ) (r : Result J) (c : Capture) (rest : List Capture) (t t' : Thumbnailer J)
      → t'.waiting ≡ rest
      → t'.returned ≡ t.returned
      → Passed c rest t (conclude now r (some c) t')
  unfolding conclude
  conclude-Passed now (ok jpeg) c rest t t' waiting same = record {
    waiting = waiting;
    free = refl;
    answer = rw same (map-append (λ x. x.id) t.returned _);
  }
  conclude-Passed now (err e) c rest t t' waiting same = record {
    waiting = waiting;
    free = refl;
    answer = rw same (map-append (λ x. x.id) t.returned _);
  }

  look-Passed :
      (entered finished : ℕ) (r : Result J) (c : Capture) (rest : List Capture)
      (cache : Option (Cached J)) (t t' : Thumbnailer J)
      → t'.waiting ≡ rest
      → t'.shooting ≡ none
      → t'.returned ≡ t.returned
      → Passed c rest t (finish_shot finished r (look entered c cache t'))
  unfolding finish_shot look
  look-Passed entered finished r c rest none t t' waiting free same =
      conclude-Passed finished r c rest t (record t' { shooting = some c }) waiting same
  look-Passed entered finished r c rest (some cached) t t' waiting free same =
      elim (Bool-cases (is_fresh c.session_id entered cached)) [
        | inl fresh ↦ rw fresh (
            subst
              (λ (o : Option Capture).
                Passed c rest t (conclude finished r o (give c entered (ok cached.jpeg) t')))
              (sym free)
              (record {
                waiting = waiting;
                free = free;
                answer = rw same (map-append (λ x. x.id) t.returned _);
              }))
        | inr stale ↦
            rw stale
              (conclude-Passed finished r c rest t (record t' { shooting = some c }) waiting same)
      ]

  round-Passed :
      (x : ℕ × ℕ × Result J) (c : Capture) (rest : List Capture) (t : Thumbnailer J)
      → t.shooting ≡ none
      → t.waiting ≡ c ∷ rest
      → Passed c rest t (round x t)
  unfolding round enter_lock admit
  round-Passed (entered, finished, r) c rest t free waiting =
      subst
        (λ (o : Option Capture × List Capture).
          Passed c rest t (finish_shot finished r (admit entered o.0 o.1 t)))
        (sym (ap₂ (λ (a : Option Capture) (b : List Capture). (a, b)) free waiting))
        (look-Passed entered finished r c rest t.cache t (record t { waiting = rest }) refl free
          refl)

  -- a round in which nobody waits
  round_idle :
      (x : ℕ × ℕ × Result J) (t : Thumbnailer J)
      → t.shooting ≡ none
      → t.waiting ≡ []
      → round x t ≡ t
  unfolding round enter_lock admit finish_shot conclude
  round_idle (entered, finished, r) t free waiting =
      ap₂
        (λ (a : Option Capture) (b : List Capture).
          conclude finished r (admit entered a b t).shooting (admit entered a b t))
        free waiting
      ∙ ap (λ (a : Option Capture). conclude finished r a t) free

  -- While the lock is free, after as many rounds as captures wait, whatever the cache holds and
  -- whatever the screenshots return or raise: no capture waits, the lock is free, and the captures
  -- that waited have been answered, once each and in order.
  pub captures_answered :
      (xs : List (ℕ × ℕ × Result J)) (waiting : List Capture) (t : Thumbnailer J)
      → t.shooting ≡ none
      → t.waiting ≡ waiting
      → length waiting ≤ length xs
      → let t' = rounds xs t in
        (t'.waiting ≡ []) × (t'.shooting ≡ none) × (answered t' ≡ answered t ++ queued waiting)
  unfolding rounds
  captures_answered [] [] t free waits enough = (waits, free, sym (append-nil (answered t)))
  captures_answered [] (c ∷ rest) t free waits enough = absurd (omega arith)
  captures_answered (x ∷ xs) [] t free waits enough =
      let still = round_idle x t free waits in
      let (none_waits, free', order) =
        captures_answered xs [] (round x t) (ap (λ (t' : Thumbnailer J). t'.shooting) still ∙ free)
          (ap (λ (t' : Thumbnailer J). t'.waiting) still ∙ waits) (omega arith) in
      (none_waits, free', order ∙ ap (λ (t' : Thumbnailer J). answered t' ++ []) still)
  captures_answered (x ∷ xs) (c ∷ rest) t free waits enough =
      let passed = round-Passed x c rest t free waits in
      let (none_waits, free', order) =
        captures_answered xs rest (round x t) passed.free passed.waiting (omega arith) in
      (
        none_waits,
        free',
        order
            ∙ ap (λ (l : List ℕ). l ++ queued rest) passed.answer
            ∙ append_assoc (answered t) (c.id ∷ []) (queued rest),
      )
