-- ===== src/Tinyproxy/Severity.antt =====
-- The level at which a line of the proxy is logged.
use chrome_live.Base.{
  ℕ, true, false, not, [], ◌∷◌, ◌++◌, ◌≡◌, refl, ap, ◌∙◌, get_or, if◌then◌else◌, arith, map,
  Bool-cases, inl, inr,
}
use mathlib.Core.Path.{ap₂, subst}
use chrome_live.Base.Text.{Text, codes, text_key, is_space, starts, has_char}
use chrome_live.Dict.{Dict, lookup}
use chrome_live.Config.{TextLib}
use chrome_live.Config.Applying.{logging_level}
use chrome_live.Tinyproxy.{
  Classes, is_plain, left, is_tinyproxy_noise, method_names, method_name_of, parse_tinyproxy_level,
  classify_tinyproxy_line, emit_tinyproxy_event,
}
use chrome_live.Tinyproxy.Prefix.{
  Run, run_text, Every, every-run, Stamp, render, taken-append, IsClasses, IsStamp,
}
use chrome_live.Tinyproxy.Refused.{IsShown, emit-IsShown}
use chrome_live.Tinyproxy.Stripped.{strip-render}

-- the levels of tinyproxy as levels of the log; any other is an information
abbrev pub severities : Dict Text ℕ
severities =
    (codes "CRITICAL", 40)
    ∷ (codes "ERROR", 40)
    ∷ (codes "WARNING", 30)
    ∷ (codes "NOTICE", 25)
    ∷ (codes "CONNECT", 10)
    ∷ (codes "INFO", 10)
    ∷ []

-- `str.upper` on the names of the methods
pub record UppersMethods (lib : TextLib) : Type 0 where
  pub error : lib.upper (codes "error") ≡ codes "ERROR"
  pub warn : lib.upper (codes "warn") ≡ codes "WARN"
  pub notice : lib.upper (codes "notice") ≡ codes "NOTICE"
  pub debug : lib.upper (codes "debug") ≡ codes "DEBUG"
  pub info : lib.upper (codes "info") ≡ codes "INFO"

map_values {ℓ} : {A B : Type ℓ} → (A → B) → Dict Text A → Dict Text B
map_values f = map (λ p. (p.0, f p.1))

get_or-map_values {ℓ} :
    {A B : Type ℓ} (f : A → B) (k : Text) (d : Dict Text A) (a : A)
    → f (get_or (lookup k d) a) ≡ get_or (lookup k (map_values f d)) (f a)
unfolding lookup map_values
get_or-map_values f k [] a = refl
get_or-map_values f k ((j, v) ∷ d) a = ground (arith, get_or-map_values f k d a)

module _ (lib : TextLib) (uppers : UppersMethods lib) where
  level_of_method : map_values (logging_level lib) method_names ≡ severities
  unfolding map_values logging_level lookup
  level_of_method = rw (uppers.error, uppers.warn, uppers.notice, uppers.debug) refl

  level_of_debug : logging_level lib (codes "debug") ≡ 10
  unfolding logging_level lookup
  level_of_debug = rw uppers.debug refl

  level_of_info : logging_level lib (codes "info") ≡ 20
  unfolding logging_level lookup
  level_of_info = rw uppers.info refl

  level_of_line :
      (body level : Text)
      → logging_level lib (method_name_of lib body level)
        ≡ (if is_tinyproxy_noise body then 10 else get_or (lookup level severities) 20)
  unfolding method_name_of
  level_of_line body level = elim (Bool-cases (is_tinyproxy_noise body)) [
    | inl noise ↦ rw noise level_of_debug
    | inr calm ↦ rw calm (
        get_or-map_values (logging_level lib) level method_names (codes "info")
        ∙ ap₂ (λ d n. get_or (lookup level d) n) level_of_method level_of_info)
  ]

-- the level that a line names
abbrev pub named_level : TextLib → Run → Text
named_level lib level = lib.upper (run_text level)

blank_not_plain : is_plain 32 ≡ false
unfolding is_space
blank_not_plain = refl

left-plain : (c : ℕ) (y : Text) → is_plain c ≡ true → left is_space (c ∷ y) ≡ c ∷ y
unfolding left
left-plain c y h = elim (Bool-cases (is_space c)) [
  | inl e ↦ absurd (cc (ap not e))
  | inr e ↦ rw e refl
]

parse-body :
    (lib : TextLib) (level : Run) (message : Text)
    → Every is_plain level
    → parse_tinyproxy_level lib (run_text level ++ 32 ∷ message) ≡ named_level lib level
unfolding parse_tinyproxy_level
parse-body lib level message plain =
    rw
      (
        left-plain level.first (level.rest ++ 32 ∷ message) plain.0,
        taken-append is_plain (run_text level) (32 ∷ message) (every-run is_plain level plain)
            blank_not_plain,
      )
      refl

-- A line of tinyproxy, with a level without spaces, date, time and process in their form, and a
-- message that has no line end and does not start with a space, is classified with its level and
-- without date, time and process. Where `str.upper` does as documented on the names of the methods,
-- it is logged at the level of the log that its level stands for, or at the debug level if it is
-- noise. The event shows the line without date, time and process, unless that is the notice that a
-- request for a filtered domain was refused, which is shown without the domain, and the domain is in
-- the event.
pub classified-severity :
    (lib : TextLib) (classes : Classes) (level : Run) (s : Stamp) (message : Text)
    → UppersMethods lib
    → IsClasses classes
    → IsStamp classes s
    → Every is_plain level
    → starts is_space message ≡ false
    → has_char 10 message ≡ false
    → let body = run_text level ++ 32 ∷ message in
      let c = classify_tinyproxy_line lib classes (render level s message) in
      let e = emit_tinyproxy_event lib c in
      (c.body ≡ body)
      × (c.level ≡ named_level lib level)
      × (e.log_level ≡ (
          if is_tinyproxy_noise body
          then 10
          else get_or (lookup (named_level lib level) severities) 20))
      × IsShown body e
unfolding classify_tinyproxy_line emit_tinyproxy_event parse_tinyproxy_level
classified-severity lib classes level s message uppers laws i plain h one_line =
    let body = strip-render classes laws s i level message plain h in
    let named = parse-body lib level message plain in
    let c = classify_tinyproxy_line lib classes (render level s message) in
    (
      body,
      ap (parse_tinyproxy_level lib) body ∙ named,
      ap (λ b. logging_level lib (method_name_of lib b (parse_tinyproxy_level lib b))) body
          ∙ ap (λ l. logging_level lib (method_name_of lib (run_text level ++ 32 ∷ message) l))
              named
          ∙ level_of_line lib uppers (run_text level ++ 32 ∷ message) (named_level lib level),
      subst (λ b. IsShown b (emit_tinyproxy_event lib c)) body (emit-IsShown lib c),
    )
