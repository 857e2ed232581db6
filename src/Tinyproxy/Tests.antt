-- ===== src/Tinyproxy/Tests.antt =====
-- Lines of the proxy, and the theorem at a concrete input.
use chrome_live.Base.{ℕ, Bool, ◌&&◌, ◌||◌, none, some, [], ◌∷◌, ◌≡◌, refl, leb, arith}
use chrome_live.Base.Text.{Text, codes, text_key, is_space, has_char}
use chrome_live.Dict.{lookup}
use chrome_live.Config.Applying.{logging_level}
use chrome_live.Config.Tests.{sample_lib}
use chrome_live.Tinyproxy.{
  Classes, taken, left, some_of, one_of, maybe_of, any_of, steps, fraction, prefix_steps,
  match_prefix, joined, strip_tinyproxy_timestamp, has_prefix, has_text, is_tinyproxy_noise, after,
  domain_in, match_domain, parse_tinyproxy_level, method_name_of, classify_tinyproxy_line,
  emit_tinyproxy_event, run_tinyproxy,
}
use chrome_live.Tinyproxy.Prefix.{Run, every, Stamp, render, IsClasses, IsStamp}
use chrome_live.Tinyproxy.Refused.{IsShown}
use chrome_live.Tinyproxy.Severity.{classified-severity}

abbrev is_ascii_digit : ℕ → Bool
is_ascii_digit c = leb 48 c && leb c 57

abbrev ascii : Classes
ascii = record {
  is_digit = is_ascii_digit;
  is_word = λ c. is_ascii_digit c || (leb 97 c && leb c 122) || (leb 65 c && leb c 90);
}

shipped :
    run_tinyproxy sample_lib ascii (
      codes "ERROR     May 12 22:46:31.766 [609]: read_request_line: Client closed socket\n"
      ∷ codes "\n"
      ∷ codes "NOTICE    May  2 22:46:31 [609]: Proxying refused on filtered domain \"a.com\"\n"
      ∷ [])
    ≡ record {
      log_level = 10;
      message = codes "[tinyproxy-log] ERROR read_request_line: Client closed socket";
      tinyproxy_level = codes "ERROR";
      filtered_domain = none;
    }
      ∷ record {
        log_level = 25;
        message = codes "[tinyproxy-log] NOTICE Proxying refused on filtered domain";
        tinyproxy_level = codes "NOTICE";
        filtered_domain = some (codes "a.com");
      }
      ∷ []
unfolding run_tinyproxy classify_tinyproxy_line emit_tinyproxy_event strip_tinyproxy_timestamp
    match_prefix joined steps taken left prefix_steps some_of one_of maybe_of any_of fraction
    parse_tinyproxy_level method_name_of is_tinyproxy_noise has_text has_prefix match_domain
    domain_in after logging_level lookup is_space
shipped = refl

ascii-IsClasses : IsClasses ascii
unfolding is_space
ascii-IsClasses = record {
  digit_plain = λ c h. ground (arith, h);
  word_plain = λ c h. ground (arith, h);
  bracket = refl;
}

abbrev blank : Run
blank = record { first = 32; rest = 32 ∷ [] }

-- `May 12 20:25:38 [123]:`
abbrev sample_stamp : Stamp
sample_stamp = record {
  gap1 = blank;
  month1 = 77;
  month2 = 97;
  month3 = 121;
  gap2 = blank;
  day1 = 49;
  day2 = some 50;
  gap3 = blank;
  hour1 = 50;
  hour2 = 48;
  minute1 = 50;
  minute2 = 53;
  second1 = 51;
  second2 = 56;
  fraction_digits = none;
  gap4 = blank;
  process = record { first = 49; rest = 50 ∷ 51 ∷ [] };
  gap5 = 32 ∷ [];
}

sample_stamp-IsStamp : IsStamp ascii sample_stamp
unfolding every is_space
sample_stamp-IsStamp = record {
  gap1 = (refl, refl);
  gap2 = (refl, refl);
  gap3 = (refl, refl);
  gap4 = (refl, refl);
  gap5 = refl;
  month1 = refl;
  month2 = refl;
  month3 = refl;
  day1 = refl;
  day2 = refl;
  hour1 = refl;
  hour2 = refl;
  minute1 = refl;
  minute2 = refl;
  second1 = refl;
  second2 = refl;
  fraction_digits = tt;
  process = (refl, refl);
}

abbrev sample_level : Run
sample_level = record { first = 69; rest = codes "RROR" }

abbrev sample_message : Text
sample_message = codes "HTTP 407 from upstream"

classified-severity_example :
    let c =
      classify_tinyproxy_line sample_lib ascii (render sample_level sample_stamp sample_message) in
    let e = emit_tinyproxy_event sample_lib c in
    (c.body ≡ codes "ERROR HTTP 407 from upstream")
    × (c.level ≡ codes "ERROR")
    × (e.log_level ≡ 40)
    × IsShown (codes "ERROR HTTP 407 from upstream") e
unfolding every is_space is_tinyproxy_noise has_text has_prefix has_char lookup
classified-severity_example =
    classified-severity sample_lib ascii sample_level sample_stamp sample_message
      (record { error = refl; warn = refl; notice = refl; debug = refl; info = refl })
      ascii-IsClasses sample_stamp-IsStamp (refl, refl) refl refl
