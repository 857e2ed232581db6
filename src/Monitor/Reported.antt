-- ===== src/Monitor/Reported.antt =====
-- Each step of the monitor keeps the byte reports in balance with the bytes.
pub mod Runs
use chrome_live.Base.{
  ℕ, ◌+◌, String, Bool, ◌≡◌, refl, Option, none, some, List, [], ◌∷◌, arith, Bool-cases,
  Option-cases, inl, inr, string_key, ◌==◌, if◌then◌else◌, ◌++◌, ◌||◌, sum_by, sum_by-append,
}
use chrome_live.Base.Int.{ℤ}
use chrome_live.Traffic.Hosts.{non_empty}
use chrome_live.Traffic.State.{Traffic}
use chrome_live.Traffic.Reporting.{HasReported}
use chrome_live.Base.Exec.{Exec, gets, modify_state, modify_if}
use chrome_live.Base.Exec.Keeps.{Keeps, Keeps-pure, Keeps-modify_if, keeps_rules}
use chrome_live.Dict.{lookup, elem, modify}
use chrome_live.Connection.{Connection}
use chrome_live.Traffic.Tabs.{close_tab, present}
use chrome_live.Traffic.Reporting.Handlers.{
  set_tab_url-HasReported, open_tab-HasReported, bind_request_host-HasReported,
  on_data_received-HasReported, on_loading_finished-HasReported, on_loading_failed-HasReported,
}
use chrome_live.Monitor.State.{Pending, Session, NetworkRequest, Payload, LogEvent, Monitor, Env}
use chrome_live.Monitor.Emit.{
  emit_cdp_event, navigation_event, emit_navigation, emit_captcha_detected, emit_navigation_failed,
}
use chrome_live.Monitor.Navigation.{
  flush_each, flush_with, flush_pending, set_main_frame, learned, learn_frame, route,
  document_response,
}
use chrome_live.Monitor.Captcha.{schedule_captcha_probe, probe_shot, report_kind, captcha_result}
use chrome_live.Monitor.Reports.{flush_closed_tabs}
use chrome_live.Monitor.Arms.{
  TargetInfo, send_command, on_traffic, on_target_created, on_attached, on_detached, drop_session,
  flush_tab, list_session, on_frame_navigated, on_dom_content, on_request, on_response, on_failed,
  track, untrack, document_arrived, failed_of, report_failure, record_call,
}
use chrome_live.Monitor.Accounts.{
  delta_of, Owes, IsAccounted, emit-Owes, apart-Owes, on_traffic-Owes, close_tab-Owes,
  flush_closed_tabs-Owes,
}
use chrome_live.Traffic.Reporting.Closing.{rebook}

-- an event that reports no bytes
pub emit_plain :
    (e : LogEvent) (m : Monitor) → e.extra ≡ none → IsAccounted m → IsAccounted (emit_cdp_event e m)
emit_plain e m plain h = emit-Owes 0 e m (record { books = rebook (ground (arith, plain)) h.books })

-- a record without bytes at the end of the log
pub log_plain :
    (e : LogEvent) (m m' : Monitor)
    → e.extra ≡ none
    → m'.log ≡ m.log ++ e ∷ []
    → m'.traffic ≡ m.traffic
    → IsAccounted m
    → IsAccounted m'
log_plain e m m' plain log traffic h =
    let same : sum_by delta_of m.log + 0 ≡ sum_by delta_of m'.log + 0 =
      ground (arith, plain, log, sum_by-append delta_of m.log (e ∷ [])) in
    record { books = rw traffic (rebook same h.books) }

emit_navigation-Owes :
    (key : String) (session : Session) (url : String) (status : ℕ) (m : Monitor)
    → IsAccounted m
    → IsAccounted (emit_navigation key session url status m)
unfolding emit_navigation
emit_navigation-Owes key session url status m h =
    emit_plain (navigation_event session.target_id url status) _ refl
      (record { books = set_tab_url-HasReported _ session.session_id url m.traffic h.books })

flush_each-Owes :
    (key : String) (session : Session) (id : String) (ps : List Pending) (m : Monitor)
    → IsAccounted m
    → IsAccounted (flush_each key session id ps m)
unfolding flush_each
flush_each-Owes key session id [] m h = h
flush_each-Owes key session id (p ∷ ps) m h = elim (Bool-cases (p.frame_id == id)) [
  | inl matches ↦ rw matches (
      flush_each-Owes key session id ps _
        (emit_navigation-Owes key session p.url p.status_code m h))
  | inr differs ↦ rw differs (flush_each-Owes key session id ps m h)
]

flush_with-Owes :
    (key : String) (session : Session) (id : Option String) (m : Monitor)
    → IsAccounted m
    → IsAccounted (flush_with key session id m)
unfolding flush_with
flush_with-Owes key session none m h = h
flush_with-Owes key session (some id) m h =
    flush_each-Owes key session id session.pending _ (apart-Owes 0 m _ refl refl h)

pub set_main_frame-Owes :
    (key : String) (session : Session) (id : Option String) (m : Monitor)
    → IsAccounted m
    → IsAccounted (set_main_frame key session id m)
unfolding set_main_frame
set_main_frame-Owes key session id m h =
    flush_with-Owes key (record session { main_frame_id = id }) (non_empty id) _
      (apart-Owes 0 m
        (record m { sessions = modify key (λ s. record s { main_frame_id = id }) m.sessions }) refl
        refl h)

learned-Owes :
    (key : String) (id : Option String) (session : Option Session) (m : Monitor)
    → IsAccounted m
    → IsAccounted (learned key id session m)
unfolding learned
learned-Owes key none session m h = h
learned-Owes key (some id) none m h = h
learned-Owes key (some id) (some session) m h = set_main_frame-Owes key session (some id) m h

pub learn_frame-Owes :
    (key : String) (id : Option String) (m : Monitor)
    → IsAccounted m
    → IsAccounted (learn_frame key id m)
unfolding learn_frame
learn_frame-Owes key id m h = learned-Owes key (non_empty id) (lookup key m.sessions) m h

route-Owes :
    (key : String) (session : Session) (p : Pending) (id : Option String) (m : Monitor)
    → IsAccounted m
    → IsAccounted (route key session p id m)
unfolding route
route-Owes key session p none m h = apart-Owes 0 m _ refl refl h
route-Owes key session p (some id) m h = elim (Bool-cases (p.frame_id == id)) [
  | inl matches ↦ rw matches (emit_navigation-Owes key session p.url p.status_code m h)
  | inr differs ↦ rw differs h
]

pub document_arrived-Owes :
    (key : String) (p : Pending) (session : Option Session) (m : Monitor)
    → IsAccounted m
    → IsAccounted (document_arrived key p session m)
unfolding document_arrived document_response
document_arrived-Owes key p none m h = h
document_arrived-Owes key p (some session) m h = route-Owes key session p _ m h

report_kind-Owes :
    (key : String) (kind : Option String) (session : Option Session) (m : Monitor)
    → IsAccounted m
    → IsAccounted (report_kind key kind session m)
unfolding report_kind emit_captcha_detected
report_kind-Owes key none session m h = h
report_kind-Owes key (some kind) none m h = h
report_kind-Owes key (some kind) (some session) m h =
    elim (Bool-cases (kind == "unknown" || elem kind session.captcha_reported)) [
      | inl old ↦ rw old h
      | inr new ↦ rw new (log_plain _ m _ refl refl refl h)
    ]

pub captcha_result-Owes :
    (key : String) (value : Option String) (m : Monitor)
    → IsAccounted m
    → IsAccounted (captcha_result key value m)
unfolding captcha_result
captcha_result-Owes key value m h =
    report_kind-Owes key (non_empty value) (lookup key m.sessions) m h

failed_of-Owes :
    (info : NetworkRequest) (text : String) (session : Option Session) (m : Monitor)
    → IsAccounted m
    → IsAccounted (failed_of info text session m)
unfolding failed_of emit_navigation_failed
failed_of-Owes info text none m h = h
failed_of-Owes info text (some session) m h = log_plain _ m _ refl refl refl h

pub report_failure-Owes :
    (info : Option NetworkRequest) (canceled : Bool) (text : String) (m : Monitor)
    → IsAccounted m
    → IsAccounted (report_failure info canceled text m)
unfolding report_failure
report_failure-Owes none canceled text m h = h
report_failure-Owes (some info) canceled text m h =
    ground (arith, failed_of-Owes info text (lookup info.session_id m.sessions) m h)

pub schedule-Owes :
    (key url : String) (m : Monitor)
    → IsAccounted m
    → IsAccounted (schedule_captcha_probe key url m)
unfolding schedule_captcha_probe
schedule-Owes key url m h = apart-Owes 0 m _ refl refl h

pub send_command-Owes :
    (env : Env) (method : String) (p : Payload) (sid : Option String)
    → Keeps IsAccounted (send_command env method p sid)
unfolding send_command
send_command-Owes env method p sid = record {
  after = λ m h. apart-Owes 0 m (send_command env method p sid m).1 refl refl h;
}
