-- ===== src/Config/Watcher/Tests.antt =====
-- The theorems on the watcher at concrete inputs.
use chrome_live.Base.{ℕ, true, some, [], ◌∷◌, ◌≡◌, refl, inl}
use chrome_live.Base.Text.{Text, text_key, split_lines, universal_newlines, is_space, has_char}
use chrome_live.Base.Exec.{value_error}
use chrome_live.Dict.{lookup, insert}
use chrome_live.Logs.{default_path}
use chrome_live.Logs.Sinks.{with_mark}
use chrome_live.Config.{
  Config, default_config, unquote, trimmed, parse_line, assign, read_lines, file_lines, File, get,
}
use chrome_live.Config.Applying.{App, good_disk, apply_config}
use chrome_live.Config.Applying.Applied.{IsApplied, apply_config-IsApplied}
use chrome_live.Config.Watcher.{Stat, Poll, started, polls}
use chrome_live.Config.Watcher.InForce.{View, Implements, polls-Implements}
use chrome_live.Config.Watcher.Ended.{bad_port_ends}
use chrome_live.Config.Tests.{sample_lib, sample_text, sample_config, run_file, bad_text}

-- a logger without handlers
abbrev blank : App
blank = record {
  config = default_config;
  logging = record {
    path = default_path;
    handlers = [];
    level = 0;
    propagate = true;
    made = 0;
    closed = [];
  };
  recordings_dir = [];
}

abbrev sample_app : App
sample_app = (apply_config sample_lib (λ x. x) default_config good_disk blank).1

sample_app-IsApplied : IsApplied sample_lib (λ x. x) [] default_config sample_app
unfolding with_mark
sample_app-IsApplied =
    (apply_config-IsApplied sample_lib (λ x. x) [] default_config blank
      (record { unique = tt; below = tt }) refl).1

abbrev poll_of : Stat → Text → Poll
poll_of s text = record {
  stat = s;
  file = File.content text;
  applying = good_disk;
  reverting = good_disk;
}

abbrev sample_disk : ℕ → Config
sample_disk m = sample_config

-- The file appears, stays, and is removed.
polls-Implements_example :
    Implements sample_lib
      (λ x. x)
      []
      sample_disk
      default_config
      View.removed
      (polls sample_lib
        (λ x. x)
        (poll_of (Stat.modified 5) sample_text
          ∷ poll_of (Stat.modified 5) sample_text
          ∷ poll_of Stat.no_file []
          ∷ [])
        (started sample_app))
polls-Implements_example =
    polls-Implements sample_lib (λ x. x) [] sample_disk default_config
      (poll_of (Stat.modified 5) sample_text
        ∷ poll_of (Stat.modified 5) sample_text
        ∷ poll_of Stat.no_file []
        ∷ [])
      View.unseen (started sample_app) ((run_file, refl), ((run_file, refl), (refl, tt)))
      (record { running = refl; applied = sample_app-IsApplied; last = refl })

bad_port_ends_example :
    polls sample_lib
      (λ x. x)
      (poll_of (Stat.modified 5) bad_text ∷ poll_of (Stat.modified 6) sample_text ∷ [])
      (started sample_app)
    ≡ record (started sample_app) { last_mtime = some 5; ended = some value_error }
unfolding file_lines split_lines universal_newlines read_lines parse_line trimmed assign unquote get
    is_space has_char lookup insert
bad_port_ends_example =
    bad_port_ends sample_lib (λ x. x) (poll_of (Stat.modified 5) bad_text) bad_text 5
      (poll_of (Stat.modified 6) sample_text ∷ []) (started sample_app) refl refl refl refl
      (inl refl)
