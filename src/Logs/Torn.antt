-- ===== src/Logs/Torn.antt =====
-- The log file that a writer has left in the middle of a record.
use chrome_live.Base.{
  ℕ, ◌<◌, zero, suc, false, Option, none, some, List, [], ◌∷◌, ◌++◌, ◌≡◌, refl, length, take, arith,
  ap, ◌∙◌,
}
use chrome_live.Base.Text.{Text, has_char, split_lines, split_lines-line}
use chrome_live.Logs.{read_records, LogFile, read_all}

-- What the reader relies on: a line of its own for each record, which is read back, and a record that
-- is cut short is no JSON.
pub record IsJson {J : Type 0} (dumps : J → Text) (loads : Text → Option J) : Type 0 where
  pub one_line : (r : J) → has_char 10 (dumps r) ≡ false
  pub read_back : (r : J) → loads (dumps r ++ 10 ∷ []) ≡ some r
  pub torn : (r : J) (n : ℕ) → n < length (dumps r) → loads (take n (dumps r)) ≡ none

has_char-take : (n : ℕ) (x : Text) → has_char 10 x ≡ false → has_char 10 (take n x) ≡ false
unfolding has_char
has_char-take zero x h = refl
has_char-take (suc n) [] h = refl
has_char-take (suc n) (c ∷ x) h = ground (arith, has_char-take n x)

-- the lines of a text without line ends
abbrev one_line : Text → List Text
one_line [] = []
one_line (c ∷ cs) = (c ∷ cs) ∷ []

split_lines-one_line : (x : Text) → has_char 10 x ≡ false → split_lines x ≡ one_line x
unfolding split_lines has_char
split_lines-one_line [] h = refl
split_lines-one_line (c ∷ []) h = ground (arith, h)
split_lines-one_line (c ∷ (d ∷ x)) h = ground (arith, split_lines-one_line (d ∷ x))

module _ {J : Type 0} (loads : Text → Option J) where
  read_records-torn : (x : Text) → loads x ≡ none → read_records loads (one_line x) ≡ []
  unfolding read_records
  read_records-torn [] h = refl
  read_records-torn (c ∷ cs) h = rw h refl

module _ {J : Type 0} (dumps : J → Text) (loads : Text → Option J) where
  -- what the file handler writes for each record
  abbrev pub written : List J → Text → Text
  written [] tail = tail
  written (r ∷ rs) tail = dumps r ++ 10 ∷ written rs tail

  split_lines-torn :
      (r : J) (n : ℕ)
      → IsJson dumps loads
      → n < length (dumps r)
      → read_records loads (split_lines (take n (dumps r))) ≡ []
  split_lines-torn r n j h =
      ap (read_records loads)
        (split_lines-one_line (take n (dumps r)) (has_char-take n (dumps r) (j.one_line r)))
      ∙ read_records-torn loads (take n (dumps r)) (j.torn r n h)

  -- For a coding that writes a record without line ends, reads it back from its line, and reads no
  -- record that is cut short: a file of whole records and the beginning of one more, which may be
  -- empty, is read as the whole records, in the order of their writing.
  pub read_all-torn :
      (rs : List J) (r : J) (n : ℕ)
      → IsJson dumps loads
      → n < length (dumps r)
      → read_all loads (LogFile.holds (written rs (take n (dumps r)))) ≡ rs
  unfolding read_all read_records
  read_all-torn [] r n j h = split_lines-torn r n j h
  read_all-torn (q ∷ rs) r n j h =
      rw (split_lines-line (dumps q) (written rs (take n (dumps r))) (j.one_line q))
        (rw (read_records, j.read_back q) (ap (◌∷◌ q) (read_all-torn rs r n j h)))
