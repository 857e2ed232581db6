-- ===== src/Config/Applying/Applied.antt =====
-- The state in which `apply_config` has set everything that a configuration asks for.
use chrome_live.Base.{leb, if◌then◌else◌, ℕ, false, List, [], ◌++◌, ◌≡◌, refl, ap, ◌∙◌, get_or}
use chrome_live.Base.Text.{Text}
use chrome_live.Base.Exec.{ok}
use chrome_live.Logs.{Handler, default_path, handle, deliver}
use chrome_live.Logs.Sinks.{IsLogging, with_mark}
use chrome_live.Logs.Delivery.{
  Setting, configured-IsLogging, configured-unmarked, configure_result, configure_delivers,
  sinks_for, run,
}
use chrome_live.Config.{TextLib, Config}
use chrome_live.Config.Applying.{
  App, good_disk, set_dir, logging_level, log_path, recordings_of, otel_of, apply_config,
}

module _ (lib : TextLib) (resolve : Text → Text) (others : List Handler) where
  -- The configuration stands, recordings go to its directory, and a log record goes to the other
  -- handlers, to the log file of the configuration, and to standard output and OpenTelemetry from
  -- the configured level on.
  pub record IsApplied (c : Config) (s : App) : Type 0 where
    pub config : s.config ≡ c
    pub recordings : s.recordings_dir ≡ recordings_of lib resolve c
    pub numbered : IsLogging s.logging
    pub unmarked : with_mark false s.logging.handlers ≡ others
    pub delivers :
        (level : ℕ)
        → deliver level s.logging ≡ (
            if leb 10 level
            then handle level others
              ++ sinks_for level
                  (get_or (log_path lib resolve c) default_path)
                  (logging_level lib c.log_level)
                  (otel_of lib resolve c)
            else [])

  pub apply_config-IsApplied :
      (c : Config) (s : App)
      → IsLogging s.logging
      → with_mark false s.logging.handlers ≡ others
      → ((apply_config lib resolve c good_disk s).0 ≡ ok tt)
        × IsApplied c (apply_config lib resolve c good_disk s).1
  unfolding apply_config set_dir run
  apply_config-IsApplied c s i u =
      let setting : Setting = record {
        path = log_path lib resolve c;
        stdout_level = logging_level lib c.log_level;
        otel = otel_of lib resolve c;
        opening = ok tt;
      } in
      rw (configure_result setting s.logging i) (
        refl,
        record {
          config = refl;
          recordings = refl;
          numbered = configured-IsLogging setting s.logging i;
          unmarked = configured-unmarked setting s.logging i ∙ u;
          delivers = λ level.
              configure_delivers [] (log_path lib resolve c) (logging_level lib c.log_level)
                (otel_of lib resolve c) s.logging level i
              ∙ ap
                  (λ (hs : List Handler).
                    if leb 10 level
                    then handle level hs
                      ++ sinks_for level (get_or (log_path lib resolve c) default_path)
                          (logging_level lib c.log_level) (otel_of lib resolve c)
                    else [])
                  u;
        },
      )
