-- ===== src/Config/Tests.antt =====
-- A configuration library, runs, and the theorems at concrete inputs.
use chrome_live.Base.{
  ℕ, ◌++◌, ◌+◌, ◌-◌, ◌*◌, ◌&&◌, Option, none, some, [], ◌∷◌, map, ◌≡◌, refl, leb, if◌then◌else◌,
}
use chrome_live.Base.Int.{ℤ}
use chrome_live.Base.Text.{
  Text, codes, text_key, split_lines, universal_newlines, is_space, has_char,
}
use chrome_live.Base.Exec.{ok}
use chrome_live.Dict.{lookup, insert, elem}
use chrome_live.Config.{
  TextLib, Config, default_config, unquote, trimmed, parse_line, assign, read_lines, file_lines,
  File, get, build, from_values, from_file,
}
use chrome_live.Config.RoundTrip.{read_lines-render}
use chrome_live.Config.Defaults.{ReadsDefaults, from_file_missing}

-- decimal digits, and ASCII capitals
abbrev digits : ℕ → Text → Option ℤ
digits n [] = some (ℤ.pos n)
digits n (c ∷ cs) =
    let rest = digits (10 * n + (c - 48)) cs in if leb 48 c && leb c 57 then rest else none

abbrev ascii_upper : ℕ → ℕ
ascii_upper c = if leb 97 c && leb c 122 then c - 32 else c

abbrev pub sample_lib : TextLib
sample_lib = record { upper = map ascii_upper; to_int = digits 0 }

abbrev pub sample_text : Text
sample_text =
    codes "# where Chrome is\n"
    ++ codes "CDP_HOST = 'chrome'\r\n"
    ++ codes "CDP_PORT=\"9333\"\n"
    ++ codes "no assignment\n"
    ++ codes "LOG_LEVEL=debug"

abbrev pub sample_config : Config
unfolding default_config
sample_config = record default_config {
  cdp_host = codes "chrome";
  cdp_port = ℤ.pos 9333;
  log_level = codes "DEBUG";
}

pub run_file : from_file sample_lib (File.content sample_text) ≡ ok sample_config
unfolding from_file from_values file_lines split_lines universal_newlines read_lines parse_line
    trimmed assign unquote get build default_config is_space has_char lookup insert
run_file = refl

abbrev pub bad_text : Text
bad_text = codes "CDP_PORT=none\n"

read_lines-render_example :
    read_lines (file_lines (codes "OTEL_EXPORTER_OTLP_HEADERS=\"a=b, #c\"\n")) []
    ≡ (codes "OTEL_EXPORTER_OTLP_HEADERS", codes "a=b, #c") ∷ []
unfolding elem has_char is_space
read_lines-render_example =
    read_lines-render ((codes "OTEL_EXPORTER_OTLP_HEADERS", codes "a=b, #c") ∷ []) (refl, tt)
      (
        record {
          plain = refl;
          no_comment = refl;
          no_space_before = refl;
          no_space_after = refl;
          no_double_before = refl;
          no_double_after = refl;
          no_single_before = refl;
          key_one_line = (refl, refl);
          value_one_line = (refl, refl);
          no_single_after = refl;
        },
        tt,
      )

sample_reads : ReadsDefaults sample_lib
sample_reads = record { cdp_port = refl; http_port = refl; level = refl }

run_missing : from_file sample_lib File.missing ≡ ok default_config
run_missing = from_file_missing sample_lib sample_reads
