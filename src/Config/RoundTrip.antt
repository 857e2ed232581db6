-- ===== src/Config/RoundTrip.antt =====
-- Configuration files that are written as `key="value"` lines, read again.
use chrome_live.Base.{
  ℕ, Bool, true, false, some, List, [], ◌∷◌, ◌++◌, map, ◌≡◌, refl, sym, ap, ◌∙◌, All, nat_beq,
  arith, ◌==◌,
}
use mathlib.Core.List.{append-nil, append_assoc}
use chrome_live.Base.Text.{
  Text, text_key, is_space, starts, ends, strip_by, strip, has_char, lstrip_by-same, rstrip_by-same,
  rstrip_by-concat, strip_by-same, strip_by-quoted, ends-append, split_once-append, text_beq_iff,
  split_lines, split_lines-line, universal_newlines, universal_newlines-line, has_char-append,
}
use chrome_live.Dict.{Dict, insert, elem, keys}
use chrome_live.Config.{
  equals, hash, double_quote, single_quote, unquote, trimmed, parse_line, assign, read_lines,
  file_lines,
}

-- `key="value"` and the end of line
abbrev pub render_line : Text × Text → Text
render_line (key, value) = (key ++ equals ∷ double_quote ∷ (value ++ double_quote ∷ [])) ++ 10 ∷ []

-- A key without `=`, a comment sign at its start or spaces at its ends; a value without quotes at
-- its ends; neither with line ends. The value may hold any other character, also `=`, `#` and spaces.
pub record IsPrintable (entry : Text × Text) : Type 0 where
  pub plain : has_char equals (entry.0) ≡ false
  pub no_comment : starts (nat_beq hash) (entry.0) ≡ false
  pub no_space_before : starts is_space (entry.0) ≡ false
  pub no_space_after : ends is_space (entry.0) ≡ false
  pub no_double_before : starts (nat_beq double_quote) (entry.1) ≡ false
  pub no_double_after : ends (nat_beq double_quote) (entry.1) ≡ false
  pub no_single_before : starts (nat_beq single_quote) (entry.1) ≡ false
  pub key_one_line : (has_char 10 (entry.0) ≡ false) × (has_char 13 (entry.0) ≡ false)
  pub value_one_line : (has_char 10 (entry.1) ≡ false) × (has_char 13 (entry.1) ≡ false)
  pub no_single_after : ends (nat_beq single_quote) (entry.1) ≡ false

-- no key stands twice
abbrev pub IsUnique : List Text → Type 0
IsUnique [] = Unit
IsUnique (k ∷ ks) = (elem k ks ≡ false) × IsUnique ks

unquote-quoted :
    (value : Text)
    → starts (nat_beq double_quote) value ≡ false
    → ends (nat_beq double_quote) value ≡ false
    → starts (nat_beq single_quote) value ≡ false
    → ends (nat_beq single_quote) value ≡ false
    → unquote (double_quote ∷ (value ++ double_quote ∷ [])) ≡ value
unfolding unquote is_space
unquote-quoted value ds de ss se =
    rw
      (strip_by-same is_space (double_quote ∷ (value ++ double_quote ∷ [])) refl
        (ends-append is_space (double_quote ∷ value) double_quote [] ∙ refl))
      (rw (strip_by-quoted (nat_beq double_quote) double_quote value refl ds de)
        (strip_by-same (nat_beq single_quote) value ss se))

abbrev body : Text × Text → Text
body (key, value) = key ++ equals ∷ double_quote ∷ (value ++ double_quote ∷ [])

starts-body :
    (key value : Text) → starts is_space key ≡ false → starts is_space (body (key, value)) ≡ false
unfolding is_space
starts-body [] value h = refl
starts-body (c ∷ key) value h = h

starts-body_hash :
    (key value : Text)
    → starts (nat_beq hash) key ≡ false
    → starts (nat_beq hash) (body (key, value)) ≡ false
starts-body_hash [] value h = refl
starts-body_hash (c ∷ key) value h = h

ends-body : (key value : Text) → ends is_space (body (key, value)) ≡ false
unfolding is_space
ends-body key value =
    ends-append is_space key equals (double_quote ∷ (value ++ double_quote ∷ []))
    ∙ ends-append is_space (equals ∷ double_quote ∷ value) double_quote []

has_equals-body : (key value : Text) → has_char equals (body (key, value)) ≡ true
unfolding has_char
has_equals-body [] value = refl
has_equals-body (c ∷ key) value = ground (arith, has_equals-body key value)

starts-append :
    (p : ℕ → Bool) (key : Text) (c : ℕ) (rest : Text)
    → starts p key ≡ false
    → p c ≡ false
    → starts p ((key ++ c ∷ rest) ++ 10 ∷ []) ≡ false
starts-append p [] c rest h e = e
starts-append p (d ∷ key) c rest h e = h

strip-line :
    (key value : Text)
    → starts is_space key ≡ false
    → strip (render_line (key, value)) ≡ body (key, value)
unfolding strip_by is_space
strip-line key value h =
    rw
      (lstrip_by-same is_space (render_line (key, value))
        (starts-append is_space key equals (double_quote ∷ (value ++ double_quote ∷ [])) h refl))
      (rstrip_by-concat is_space (body (key, value)) 10 refl
        ∙ rstrip_by-same is_space (body (key, value)) (ends-body key value))

parse-render :
    (entry : Text × Text) → IsPrintable entry → parse_line (render_line entry) ≡ some entry
unfolding parse_line trimmed
parse-render (key, value) p = rw (strip-line key value p.no_space_before) (
    rw (has_equals-body key value, starts-body_hash key value p.no_comment)
      (rw (split_once-append equals key (double_quote ∷ (value ++ double_quote ∷ [])) p.plain) (
        rw
          (
            strip_by-same is_space key p.no_space_before p.no_space_after,
            unquote-quoted value p.no_double_before p.no_double_after p.no_single_before
                p.no_single_after,
          )
          refl)))

insert-new :
    (key value : Text) (values : Dict Text Text)
    → elem key (keys values) ≡ false
    → insert key value values ≡ values ++ (key, value) ∷ []
unfolding insert elem
insert-new key value [] h = refl
insert-new key value ((k, v) ∷ values) h = ground (arith, insert-new key value values)

elem-middle :
    (j k : Text) (v : Text) (acc values : Dict Text Text)
    → elem j (keys (acc ++ (k, v) ∷ values)) ≡ false
    → (k == j) ≡ false
unfolding elem
elem-middle j k v [] values h = ground (arith, h)
elem-middle j k v ((i, w) ∷ acc) values h = ground (arith, elem-middle j k v acc values)

IsUnique-middle :
    (k v : Text) (acc values : Dict Text Text)
    → IsUnique (keys (acc ++ (k, v) ∷ values))
    → elem k (keys acc) ≡ false
unfolding elem
IsUnique-middle k v [] values u = refl
IsUnique-middle k v ((i, w) ∷ acc) values u = ground (
  arith,
  elem-middle i k v acc values (u.0),
  IsUnique-middle k v acc values (u.1),
  text_beq_iff i k,
  text_beq_iff k i,
)

read_lines-append :
    (acc values : Dict Text Text)
    → IsUnique (keys (acc ++ values))
    → All IsPrintable values
    → read_lines (map render_line values) acc ≡ acc ++ values
unfolding read_lines assign
read_lines-append acc [] u p = sym (append-nil acc)
read_lines-append acc ((k, v) ∷ values) u p =
    let assoc : (acc ++ (k, v) ∷ []) ++ values ≡ acc ++ (k, v) ∷ values =
      append_assoc acc ((k, v) ∷ []) values in
    rw (read_lines, parse-render (k, v) p.0)
      (rw (insert-new k v acc (IsUnique-middle k v acc values u))
        (read_lines-append (acc ++ (k, v) ∷ []) values (rw assoc u) p.1 ∙ assoc))

-- the file with a line for each entry
abbrev pub render_file : Dict Text Text → Text
render_file [] = []
render_file (entry ∷ values) = body entry ++ 10 ∷ render_file values

body_one_line :
    (c : ℕ) (key value : Text)
    → nat_beq c 61 ≡ false
    → nat_beq c 34 ≡ false
    → has_char c key ≡ false
    → has_char c value ≡ false
    → has_char c (body (key, value)) ≡ false
unfolding has_char
body_one_line c key value e q k v = ground (
  arith,
  has_char-append c key (equals ∷ double_quote ∷ (value ++ double_quote ∷ [])),
  has_char-append c value (double_quote ∷ []),
)

file_lines-render :
    (values : Dict Text Text)
    → All IsPrintable values
    → file_lines (render_file values) ≡ map render_line values
unfolding file_lines split_lines universal_newlines
file_lines-render [] p = refl
file_lines-render ((key, value) ∷ values) p =
    let k = p.0.key_one_line in
    let v = p.0.value_one_line in
    ap split_lines (
      universal_newlines-line (body (key, value)) (render_file values)
        (body_one_line 13 key value refl refl k.1 v.1))
    ∙ split_lines-line (body (key, value)) (universal_newlines (render_file values))
        (body_one_line 10 key value refl refl k.0 v.0)
    ∙ ap (◌∷◌ (render_line (key, value))) (file_lines-render values p.1)

-- Every dict whose keys differ, whose keys have no `=`, no spaces at their ends and no `#` at their
-- start, whose values have no quotes at their ends, and which has no line ends in them, is read from
-- the file with a line `key="value"` for each entry, in its order.
pub read_lines-render :
    (values : Dict Text Text)
    → IsUnique (keys values)
    → All IsPrintable values
    → read_lines (file_lines (render_file values)) [] ≡ values
read_lines-render values u p =
    ap (λ lines. read_lines lines []) (file_lines-render values p) ∙ read_lines-append [] values u p
