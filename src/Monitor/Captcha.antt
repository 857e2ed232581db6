-- ===== src/Monitor/Captcha.antt =====
-- CAPTCHA probes and their results in browser-trace/main.py. A probe task is a series of shots: a
-- shot is what the task does between two sleeps.
use chrome_live.Base.{
  String, Bool, true, false, Option, none, some, [], ◌∷◌, ◌++◌, ◌==◌, ◌||◌, string_key, get_or,
  if◌then◌else◌,
}
use chrome_live.Base.Exec.{Result, ok, err}
use chrome_live.Dict.{lookup, modify, elem}
use chrome_live.Connection.{send}
use chrome_live.Traffic.Hosts.{non_empty}
use chrome_live.Monitor.State.{Session, params, Monitor, Env}
use chrome_live.Monitor.Emit.{emit_captcha_detected}

abbrev pub reset_probe : String → Session → Session
reset_probe url s = record s { captcha_probe_url = some url; captcha_reported = [] }

-- `schedule_captcha_probe`, with the task that it creates
unfoldable pub schedule_captcha_probe : String → String → Monitor → Monitor
schedule_captcha_probe key url m = record m {
  sessions = modify key (reset_probe url) m.sessions;
  probe_tasks = m.probe_tasks ++ (key, url) ∷ [];
}

-- whether the session still shows the page that the probe was armed for
abbrev pub is_current : String → Option Session → Bool
is_current url none = false
is_current url (some s) = elim s.captcha_probe_url [ none ↦ false | some armed ↦ armed == url ]

abbrev pub is_ok {ℓ} : {A : Type ℓ} → Result A → Bool
is_ok (ok a) = true
is_ok (err e) = false

-- One round of the loop of `probe_captcha` after its sleep; `true` if the task goes on.
unfoldable pub probe_shot : Env → String → String → Monitor → Bool × Monitor
probe_shot env key url m =
    if is_current url (lookup key m.sessions)
    then (let (r, conn) =
          send (env.write_fault "Runtime.evaluate") "Runtime.evaluate" (params "classifier")
            (some key) m.conn in
        (is_ok r, record m { conn = conn }))
    else (false, m)

abbrev pub add_reported : String → Session → Session
add_reported kind s = record s { captcha_reported = s.captcha_reported ++ kind ∷ [] }

unfoldable pub report_kind : String → Option String → Option Session → Monitor → Monitor
report_kind key none session m = m
report_kind key (some kind) none m = m
report_kind key (some kind) (some session) m =
    if kind == "unknown" || elem kind session.captcha_reported
    then m
    else emit_captcha_detected session (get_or session.captcha_probe_url "") kind
        (record m { sessions = modify key (add_reported kind) m.sessions })

-- The `Runtime.evaluate` arm of `handle_response`, for a session; `none` is a value that is no text.
unfoldable pub captcha_result : String → Option String → Monitor → Monitor
unfolding report_kind
captcha_result key value m = report_kind key (non_empty value) (lookup key m.sessions) m
