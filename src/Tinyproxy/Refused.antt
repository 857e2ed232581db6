-- ===== src/Tinyproxy/Refused.antt =====
-- The message of an event, and the domain of a refused request.
use chrome_live.Base.{
  ℕ, Bool, true, false, not, none, some, [], ◌∷◌, ◌++◌, ◌≡◌, ◌⊎◌, inl, inr, refl, sym, ap, ◌∙◌,
  nat_beq, arith, ◌==◌, Option-cases,
}
use mathlib.Core.Path.{subst}
use chrome_live.Base.Text.{Text, codes, text_key, has_char}
use chrome_live.Config.{TextLib}
use chrome_live.Tinyproxy.{
  taken, left, after, quoted, domain_in, match_domain, message_of, refused, Classified, Event,
  emit_tinyproxy_event,
}
use chrome_live.Tinyproxy.Prefix.{every, left-append, taken-append}

-- `NOTICE Proxying refused on filtered domain "d"`, for a domain that is not empty and has no quotes
abbrev pub IsRefusal : Text → Text → Type 0
IsRefusal d body =
    ((d == []) ≡ false)
    × (has_char 34 d ≡ false)
    × (body ≡ codes "NOTICE Proxying refused on filtered domain \"" ++ (d ++ 34 ∷ []))

after-eq : (x y z : Text) → after x y ≡ some z → y ≡ x ++ z
unfolding after
after-eq [] y z h = ground (arith, h)
after-eq (a ∷ x) [] z h = cc
after-eq (a ∷ x) (b ∷ y) z h = ground (arith, h, after-eq x y z)

after-append : (x z : Text) → after x (x ++ z) ≡ some z
unfolding after
after-append [] z = refl
after-append (a ∷ x) z = ground (arith, after-append x z)

abbrev no_quote : ℕ → Bool
no_quote c = not (nat_beq 34 c)

taken_left : (x : Text) → x ≡ taken no_quote x ++ left no_quote x
unfolding taken left
taken_left [] = refl
taken_left (c ∷ x) = ground (arith, taken_left x)

has_quote-taken : (x : Text) → has_char 34 (taken no_quote x) ≡ false
unfolding taken has_char
has_quote-taken [] = refl
has_quote-taken (c ∷ x) = ground (arith, has_quote-taken x)

every-no_quote : (d : Text) → has_char 34 d ≡ false → every no_quote d ≡ true
unfolding every has_char
every-no_quote [] h = refl
every-no_quote (c ∷ d) h = ground (arith, h, every-no_quote d)

quoted-eq : (d l e : Text) → quoted d l ≡ some e → (l ≡ 34 ∷ []) × (d ≡ e) × ((d == []) ≡ false)
quoted-eq d [] e h = cc
quoted-eq d (c ∷ []) e h = ground (arith, h)
quoted-eq d (c ∷ (b ∷ l)) e h = cc

domain_in-eq :
    (rest d : Text)
    → domain_in (some rest) ≡ some d
    → ((d == []) ≡ false) × (has_char 34 d ≡ false) × (rest ≡ d ++ 34 ∷ [])
unfolding domain_in
domain_in-eq rest d h =
    let (l, same, given) = quoted-eq (taken no_quote rest) (left no_quote rest) d h in
    (
      subst (λ x. (x == []) ≡ false) same given,
      subst (λ x. has_char 34 x ≡ false) same (has_quote-taken rest),
      taken_left rest ∙ ap (λ x. taken no_quote rest ++ x) l ∙ ap (λ x. x ++ 34 ∷ []) same,
    )

match_domain-IsRefusal : (body d : Text) → match_domain body ≡ some d → IsRefusal d body
unfolding match_domain
match_domain-IsRefusal body d h = elim (Option-cases (after (refused ++ 32 ∷ 34 ∷ []) body)) [
  | inl e ↦ absurd (cc (e, h))
  | inr (rest, e) ↦
      let (given, clean, same) = domain_in-eq rest d (sym (ap domain_in e) ∙ h) in
      (
        given,
        clean,
        after-eq (refused ++ 32 ∷ 34 ∷ []) body rest e
            ∙ ap (λ x. (refused ++ 32 ∷ 34 ∷ []) ++ x) same,
      )
]

domain_in-quoted :
    (d : Text)
    → (d == []) ≡ false
    → has_char 34 d ≡ false
    → domain_in (some (d ++ 34 ∷ [])) ≡ some d
unfolding domain_in
domain_in-quoted d given clean =
    rw
      (
        taken-append no_quote d (34 ∷ []) (every-no_quote d clean) refl,
        left-append no_quote d (34 ∷ []) (every-no_quote d clean) refl,
      )
      (rw given refl)

IsRefusal-match_domain : (body d : Text) → IsRefusal d body → match_domain body ≡ some d
unfolding match_domain
IsRefusal-match_domain body d r =
    ap (λ x. domain_in (after (refused ++ 32 ∷ 34 ∷ []) x)) r.2
    ∙ ap domain_in (after-append (refused ++ 32 ∷ 34 ∷ []) (d ++ 34 ∷ []))
    ∙ domain_in-quoted d r.0 r.1

-- An event shows its line, or, where the line is a refusal, a fixed message and the domain.
abbrev pub IsShown : Text → Event → Type 0
IsShown body e =
    ((e.message ≡ codes "[tinyproxy-log] " ++ body)
      × (e.filtered_domain ≡ none)
      × ((d : Text) → ¬ IsRefusal d body))
    ⊎ ((d : Text) × IsRefusal d body
        × (e.filtered_domain ≡ some d)
        × (e.message ≡ codes "[tinyproxy-log] NOTICE Proxying refused on filtered domain"))

pub emit-IsShown : (lib : TextLib) (c : Classified) → IsShown c.body (emit_tinyproxy_event lib c)
unfolding emit_tinyproxy_event
emit-IsShown lib c = elim (Option-cases (match_domain c.body)) [
  | inl e ↦ inl (
    ap (λ o. codes "[tinyproxy-log] " ++ message_of c.body o) e,
    e,
    λ d r. absurd (cc (e, IsRefusal-match_domain c.body d r)),
  )
  | inr (d, e) ↦ inr (
    d,
    match_domain-IsRefusal c.body d e,
    e,
    ap (λ o. codes "[tinyproxy-log] " ++ message_of c.body o) e,
  )
]
