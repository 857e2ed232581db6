-- ===== src/Logs/Tests.antt =====
-- A logger that is configured twice, a log file, and the theorems at concrete inputs.
use chrome_live.Base.{
  ℕ, ◌<◌, zero, suc, Bool, true, false, Option, none, some, [], ◌∷◌, ◌++◌, ◌≡◌, refl, take, length,
  arith, ◌==◌, if◌then◌else◌,
}
use chrome_live.Base.Text.{Text, codes, text_key, has_char}
use chrome_live.Base.Exec.{os_error, ok, err}
use chrome_live.Logs.{Sink, Logging, default_path, configure, handle, deliver, LogFile, read_all}
use chrome_live.Logs.Sinks.{IsLogging, with_mark}
use chrome_live.Logs.Delivery.{Setting, run, configure_delivers, configure_fails}
use chrome_live.Logs.Torn.{read_all-torn}

abbrev sample_logging : Logging
sample_logging = record {
  path = default_path;
  handlers =
      record { id = 0; sink = Sink.other; level = 0; marked = false }
      ∷ record { id = 1; sink = Sink.console; level = 20; marked = true }
      ∷ [];
  level = 30;
  propagate = true;
  made = 2;
  closed = [];
}

sample_IsLogging : IsLogging sample_logging
sample_IsLogging = record {
  unique = ((refl, tt), (tt, tt));
  below = (omega arith, (omega arith, tt));
}

abbrev sample_setting : Setting
sample_setting = record {
  path = some (codes "/var/log/x.jsonl");
  stdout_level = 20;
  otel = some 20;
  opening = ok tt;
}

configure_delivers_example :
    deliver 10
      (configure none 20
        (some 10)
        (ok tt)
        (run (sample_setting ∷ sample_setting ∷ []) sample_logging)).1
    ≡ Sink.other ∷ Sink.file default_path ∷ Sink.telemetry ∷ []
unfolding handle with_mark
configure_delivers_example =
    configure_delivers (sample_setting ∷ sample_setting ∷ []) none 20 (some 10) sample_logging 10
      sample_IsLogging

configure_fails_example :
    let (r, s') = configure none 20 none (err os_error) sample_logging in
    (r ≡ err os_error)
    × (s'.handlers ≡ with_mark false sample_logging.handlers)
    × (s'.closed ≡ [] ++ with_mark true sample_logging.handlers)
configure_fails_example = configure_fails none 20 none os_error sample_logging sample_IsLogging

-- a codec for records that are a number below two
abbrev bool_dumps : Bool → Text
bool_dumps true = codes "{1}"
bool_dumps false = codes "{0}"

abbrev bool_loads : Text → Option Bool
bool_loads x =
    if x == codes "{1}\n" then some true else if x == codes "{0}\n" then some false else none

bool_torn :
    (r : Bool) (n : ℕ) → n < length (bool_dumps r) → bool_loads (take n (bool_dumps r)) ≡ none
bool_torn true zero h = refl
bool_torn true (suc zero) h = refl
bool_torn true (suc (suc zero)) h = refl
bool_torn true (suc (suc (suc n))) h = absurd (omega (arith, h))
bool_torn false zero h = refl
bool_torn false (suc zero) h = refl
bool_torn false (suc (suc zero)) h = refl
bool_torn false (suc (suc (suc n))) h = absurd (omega (arith, h))

bool_one_line : (r : Bool) → has_char 10 (bool_dumps r) ≡ false
unfolding has_char
bool_one_line true = refl
bool_one_line false = refl

bool_read_back : (r : Bool) → bool_loads (bool_dumps r ++ 10 ∷ []) ≡ some r
bool_read_back true = refl
bool_read_back false = refl

read_all-torn_example :
    read_all bool_loads (LogFile.holds (codes "{1}\n{0}\n{")) ≡ true ∷ false ∷ []
read_all-torn_example =
    read_all-torn bool_dumps bool_loads (true ∷ false ∷ []) true 1
      (record { one_line = bool_one_line; read_back = bool_read_back; torn = bool_torn })
      (omega arith)
