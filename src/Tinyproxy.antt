-- ===== src/Tinyproxy.antt =====
-- browser-trace/main.py in `tinyproxy` mode: a line of the proxy becomes a log event. A line has no
-- line end inside. The regular expressions have one way to match, so they are parsers: each step takes
-- what it matches off the front. `\d` and `\w` are fields of `Classes`, `\s` is `is_space`.
pub mod Prefix
pub mod Stripped
pub mod Refused
pub mod Severity
mod Tests
use chrome_live.Base.{
  ℕ, zero, suc, Bool, true, false, not, ◌||◌, Option, none, some, List, [], ◌∷◌, ◌++◌, get_or,
  nat_beq, if◌then◌else◌, ◌==◌,
}
use chrome_live.Base.Text.{Text, codes, text_key, is_space, has_char, rstrip_by}
use chrome_live.Dict.{Dict, lookup}
use chrome_live.Config.{TextLib}
use chrome_live.Config.Applying.{logging_level, log_levels}

pub record Classes : Type 0 where
  pub is_digit : ℕ → Bool
  pub is_word : ℕ → Bool

-- `\S`
abbrev pub is_plain : ℕ → Bool
is_plain c = not (is_space c)

module _ (p : ℕ → Bool) where
  -- the longest beginning of characters that pass a test
  unfoldable pub taken : Text → Text
  taken [] = []
  taken (c ∷ cs) = let rest = taken cs in if p c then c ∷ rest else []

  -- what follows it
  unfoldable pub left : Text → Text
  left [] = []
  left (c ∷ cs) = let rest = left cs in if p c then rest else c ∷ cs

  -- one character or more: `p+`
  unfoldable pub some_of : Text → Option Text
  unfolding left
  some_of [] = none
  some_of (c ∷ cs) = if p c then some (left cs) else none

  -- one character
  unfoldable pub one_of : Text → Option Text
  one_of [] = none
  one_of (c ∷ cs) = if p c then some cs else none

  -- one character, if it is there
  unfoldable pub maybe_of : Text → Option Text
  maybe_of [] = some []
  maybe_of (c ∷ cs) = some (if p c then cs else c ∷ cs)

  -- `p*`
  unfoldable pub any_of : Text → Option Text
  unfolding left
  any_of x = some (left x)

-- the steps of a regular expression, one after the other
unfoldable pub steps : List (Text → Option Text) → Text → Option Text
steps [] x = some x
steps (f ∷ fs) x = elim (f x) [ none ↦ none | some rest ↦ steps fs rest ]

-- `(?:\.\d+)?`
unfoldable pub fraction : (ℕ → Bool) → Text → Option Text
unfolding some_of
fraction p [] = some []
fraction p (c ∷ cs) = if nat_beq c 46 then some_of p cs else some (c ∷ cs)

unfoldable pub joined : Text → Option (Text × Text) → Text
joined line none = line
joined line (some (level, message)) = level ++ 32 ∷ message

-- The groups of a match: the level, and the message.
module _ (classes : Classes) where
  unfoldable pub prefix_steps : List (Text → Option Text)
  unfolding some_of one_of maybe_of fraction any_of
  prefix_steps =
      some_of is_space
      ∷ one_of classes.is_word
      ∷ one_of classes.is_word
      ∷ one_of classes.is_word
      ∷ some_of is_space
      ∷ one_of classes.is_digit
      ∷ maybe_of classes.is_digit
      ∷ some_of is_space
      ∷ one_of classes.is_digit
      ∷ one_of classes.is_digit
      ∷ one_of (nat_beq 58)
      ∷ one_of classes.is_digit
      ∷ one_of classes.is_digit
      ∷ one_of (nat_beq 58)
      ∷ one_of classes.is_digit
      ∷ one_of classes.is_digit
      ∷ fraction classes.is_digit
      ∷ some_of is_space
      ∷ one_of (nat_beq 91)
      ∷ some_of classes.is_digit
      ∷ one_of (nat_beq 93)
      ∷ one_of (nat_beq 58)
      ∷ any_of is_space
      ∷ []

  unfoldable pub match_prefix : Text → Option (Text × Text)
  unfolding steps taken left prefix_steps
  match_prefix line =
      if taken is_plain line == [] then none else elim (steps prefix_steps (left is_plain line)) [
        | none ↦ none
        | some message ↦ some (taken is_plain line, message)
      ]

  unfoldable pub strip_tinyproxy_timestamp : Text → Text
  unfolding match_prefix joined
  strip_tinyproxy_timestamp line = joined line (match_prefix line)

-- `TINYPROXY_LEVEL_TO_LOG_LEVEL`
abbrev pub method_names : Dict Text Text
method_names =
    (codes "CRITICAL", codes "error")
    ∷ (codes "ERROR", codes "error")
    ∷ (codes "WARNING", codes "warn")
    ∷ (codes "NOTICE", codes "notice")
    ∷ (codes "CONNECT", codes "debug")
    ∷ (codes "INFO", codes "debug")
    ∷ []

unfoldable pub has_prefix : Text → Text → Bool
has_prefix [] y = true
has_prefix (a ∷ x) [] = false
has_prefix (a ∷ x) (b ∷ y) = let rest = has_prefix x y in if nat_beq a b then rest else false

-- `pattern in text`
unfoldable pub has_text : Text → Text → Bool
unfolding has_prefix
has_text pattern [] = has_prefix pattern []
has_text pattern (c ∷ cs) = let rest = has_text pattern cs in has_prefix pattern (c ∷ cs) || rest

unfoldable pub is_tinyproxy_noise : Text → Bool
unfolding has_text
is_tinyproxy_noise body = has_text (codes "read_request_line: Client") body

-- A line with its level and the name of the method that logs it.
pub record Classified : Type 0 where
  pub body : Text
  pub level : Text
  pub method_name : Text

pub record Event : Type 0 where
  pub log_level : ℕ
  pub message : Text
  pub tinyproxy_level : Text
  pub filtered_domain : Option Text

abbrev pub refused : Text
refused = codes "NOTICE Proxying refused on filtered domain"

-- what follows a text at the front
unfoldable pub after : Text → Text → Option Text
after [] y = some y
after (a ∷ x) [] = none
after (a ∷ x) (b ∷ y) = let rest = after x y in if nat_beq a b then rest else none

-- the domain of `"domain"`, where nothing follows the second quote
abbrev pub quoted : Text → Text → Option Text
quoted domain [] = none
quoted domain (c ∷ []) = if domain == [] then none else if nat_beq 34 c then some domain else none
quoted domain (c ∷ (d ∷ rest)) = none

unfoldable pub domain_in : Option Text → Option Text
unfolding taken left
domain_in none = none
domain_in (some rest) =
    quoted (taken (λ c. not (nat_beq 34 c)) rest) (left (λ c. not (nat_beq 34 c)) rest)

-- `_TINYPROXY_FILTERED_DOMAIN_RE`
unfoldable pub match_domain : Text → Option Text
unfolding after domain_in
match_domain body = domain_in (after (refused ++ 32 ∷ 34 ∷ []) body)

abbrev pub message_of : Text → Option Text → Text
message_of body none = body
message_of body (some domain) = refused

module _ (lib : TextLib) where
  -- `line.split(None, 1)[0].upper()`
  unfoldable pub parse_tinyproxy_level : Text → Text
  unfolding taken left is_space
  parse_tinyproxy_level line =
      let word = taken is_plain (left is_space line) in if word == [] then [] else lib.upper word

  unfoldable pub method_name_of : Text → Text → Text
  unfolding is_tinyproxy_noise lookup
  method_name_of body level =
      if is_tinyproxy_noise body
      then codes "debug"
      else get_or (lookup level method_names) (codes "info")

  unfoldable pub emit_tinyproxy_event : Classified → Event
  unfolding match_domain logging_level
  emit_tinyproxy_event c = record {
    log_level = logging_level lib c.method_name;
    message = codes "[tinyproxy-log] " ++ message_of c.body (match_domain c.body);
    tinyproxy_level = if c.level == [] then codes "UNKNOWN" else c.level;
    filtered_domain = match_domain c.body;
  }

-- `raw.rstrip("\r\n")`
abbrev pub is_line_end : ℕ → Bool
is_line_end c = nat_beq c 13 || nat_beq c 10

module _ (lib : TextLib) (classes : Classes) where
  unfoldable pub classify_tinyproxy_line : Text → Classified
  unfolding strip_tinyproxy_timestamp parse_tinyproxy_level method_name_of
  classify_tinyproxy_line line =
      let body = strip_tinyproxy_timestamp classes line in
      let level = parse_tinyproxy_level lib body in
      record { body = body; level = level; method_name = method_name_of lib body level }

  -- the lines of standard input
  unfoldable pub run_tinyproxy : List Text → List Event
  unfolding classify_tinyproxy_line emit_tinyproxy_event rstrip_by
  run_tinyproxy [] = []
  run_tinyproxy (raw ∷ rest) =
      let line = rstrip_by is_line_end raw in
      let events = run_tinyproxy rest in
      if line == []
      then events
      else emit_tinyproxy_event lib (classify_tinyproxy_line line) ∷ events
