-- ===== src/Config/Applying.antt =====
-- `apply_config` of browser-trace/main.py, on the logger of browser-trace/logs.py and the directory
-- of browser-trace/recording.py, with `create_handler` of browser-trace/telemetry.py. The exporter is
-- taken to be made without an exception; its own log messages are left out.
pub mod Applied
use chrome_live.Base.{ℕ, Option, none, some, List, [], ◌∷◌, get_or}
use chrome_live.Base.Text.{Text, codes, text_key}
use chrome_live.Base.Exec.{Outcome, ok, err}
use chrome_live.Dict.{Dict, lookup}
use chrome_live.Logs.{Logging, configure}
use chrome_live.Config.{TextLib, Config, non_empty_text}

-- `_LOG_LEVEL_TO_PYTHON_LEVEL`
abbrev pub log_levels : Dict Text ℕ
log_levels =
    (codes "DEBUG", 10)
    ∷ (codes "INFO", 20)
    ∷ (codes "NOTICE", 25)
    ∷ (codes "WARN", 30)
    ∷ (codes "WARNING", 30)
    ∷ (codes "ERROR", 40)
    ∷ (codes "FATAL", 50)
    ∷ (codes "CRITICAL", 50)
    ∷ []

-- What `apply_config` sets.
pub record App : Type 0 where
  pub config : Config
  pub logging : Logging
  pub recordings_dir : Text

-- whether the log file could be opened, and the directory of the recordings made
pub record Disk : Type 0 where
  pub opening : Outcome
  pub making : Outcome

abbrev pub good_disk : Disk
good_disk = record { opening = ok tt; making = ok tt }

-- `telemetry.create_handler`, for the level of the handler
unfoldable pub create_handler : Text → ℕ → Option ℕ
create_handler [] level = none
create_handler (c ∷ cs) level = some level

abbrev pub option_map {ℓ κ} : {A : Type ℓ} {B : Type κ} → (A → B) → Option A → Option B
option_map f none = none
option_map f (some a) = some (f a)

-- `rec.configure`, after the logs are configured
unfoldable pub set_dir : Outcome → Outcome → Text → App → Outcome × App
set_dir (err e) making dir s = (err e, s)
set_dir (ok u) making dir s = (making, record s { recordings_dir = dir })

module _ (lib : TextLib) where
  unfoldable pub logging_level : Text → ℕ
  unfolding lookup
  logging_level level = get_or (lookup (lib.upper level) log_levels) 20

-- `Path.resolve` is the function `resolve`.
module _ (lib : TextLib) (resolve : Text → Text) where
  abbrev pub log_path : Config → Option Text
  log_path c = option_map resolve (non_empty_text c.event_log_path)

  abbrev pub recordings_of : Config → Text
  recordings_of c =
      get_or (option_map resolve (non_empty_text c.recording_dir)) (codes "/tmp/recordings")

  unfoldable pub otel_of : Config → Option ℕ
  unfolding create_handler logging_level
  otel_of c = create_handler c.otlp_endpoint (logging_level lib c.log_level)

  unfoldable pub apply_config : Config → Disk → App → Outcome × App
  unfolding set_dir logging_level otel_of
  apply_config c disk s =
      let (r, logging) =
        configure (log_path c) (logging_level lib c.log_level) (otel_of c) disk.opening s.logging in
      set_dir r disk.making (recordings_of c) (record s { config = c; logging = logging })
