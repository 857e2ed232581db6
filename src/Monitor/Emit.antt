-- ===== src/Monitor/Emit.antt =====
-- `emit_cdp_event` and the functions of browser-trace/main.py that log through it.
use chrome_live.Base.{
  ℕ, String, Bool, false, Option, none, some, [], ◌∷◌, ◌++◌, leb, ◌||◌, is_some, string_key,
  if◌then◌else◌,
}
use chrome_live.Dict.{modify}
use chrome_live.Traffic.Tabs.{set_tab_url}
use chrome_live.Monitor.State.{Session, Level, info, error, LogEvent, Monitor}

-- The keyword arguments of `emit_cdp_event`, all absent.
abbrev pub no_attributes : LogEvent
no_attributes = record {
  level = info;
  event = "";
  tab_id = none;
  tab_url = none;
  status_code = none;
  error_text = none;
  is_main_frame = none;
  captcha_kind = none;
  extra = none;
}

abbrev pub at_least_400 : Option ℕ → Bool
at_least_400 none = false
at_least_400 (some status) = leb 400 status

unfoldable pub event_level : LogEvent → Level
event_level e = if is_some e.error_text || at_least_400 e.status_code then error else info

-- `emit_cdp_event`, on its attributes
unfoldable pub emit_cdp_event : LogEvent → Monitor → Monitor
unfolding event_level
emit_cdp_event e m = record m { log = m.log ++ record e { level = event_level e } ∷ [] }

abbrev pub navigation_event : String → String → ℕ → LogEvent
navigation_event tab_id url status_code = record no_attributes {
  event = "navigation";
  tab_id = some tab_id;
  tab_url = some url;
  status_code = some status_code;
}

-- `session` is the object at its key in `sessions`.
unfoldable pub emit_navigation : String → Session → String → ℕ → Monitor → Monitor
unfolding emit_cdp_event
emit_navigation key session url status_code m =
    emit_cdp_event (navigation_event session.target_id url status_code) (record m {
      sessions = modify key (λ s. record s { last_url = url }) m.sessions;
      traffic = set_tab_url session.session_id url m.traffic;
    })

unfoldable pub emit_captcha_detected : Session → String → String → Monitor → Monitor
unfolding emit_cdp_event
emit_captcha_detected session url kind m =
    emit_cdp_event
      (record no_attributes {
        event = "captcha_detected";
        tab_id = some session.target_id;
        tab_url = some url;
        captcha_kind = some kind;
      })
      m

-- The log event; the line that repeats it as text is left out.
unfoldable pub emit_navigation_failed : Session → String → String → Bool → Monitor → Monitor
unfolding emit_cdp_event
emit_navigation_failed session url error_text is_main_frame m =
    emit_cdp_event
      (record no_attributes {
        event = "navigation_failed";
        tab_id = some session.target_id;
        tab_url = some url;
        error_text = some error_text;
        is_main_frame = some is_main_frame;
      })
      m
