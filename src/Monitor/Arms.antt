-- ===== src/Monitor/Arms.antt =====
-- The arms of `handle_event` in browser-trace/main.py, each on the parts of the event it reads.
use chrome_live.Base.{
  ℕ, String, Bool, false, Option, none, some, [], ◌∷◌, ◌++◌, ◌==◌, ◌&&◌, string_key, get_or,
  if◌then◌else◌, is_some,
}
use chrome_live.Base.Int.{ℤ}
use chrome_live.Base.Exec.{Exec, pure, gets, modify_state, modify_if, ◌>>=◌, ◌>>◌}
use chrome_live.Dict.{Dict, lookup, insert, erase, erase_each, keys_where}
use chrome_live.Connection.{send}
use chrome_live.Traffic.State.{Traffic}
use chrome_live.Traffic.Hosts.{non_empty}
use chrome_live.Traffic.Requests.{bind_request_host, on_loading_failed}
use chrome_live.Traffic.Tabs.{open_tab, close_tab, present}
use chrome_live.Monitor.State.{
  Pending, Session, NetworkRequest, Payload, empty, RecorderCall, start, stop, Monitor, Env,
}
use chrome_live.Monitor.Emit.{no_attributes, emit_cdp_event, emit_navigation_failed}
use chrome_live.Monitor.Navigation.{set_main_frame, document_response}
use chrome_live.Monitor.Captcha.{schedule_captcha_probe}
use chrome_live.Monitor.Reports.{flush_closed_tabs}

-- `params["targetInfo"]`; here and below `none` is a key that is missing.
pub record TargetInfo : Type 0 where
  pub kind : Option String
  pub target_id : Option String
  pub url : Option String

-- The arms of `handle_event`, each with the parts of `params` that it reads.
pub data Arm : Type 0 where
  target_created : TargetInfo → Arm
  attached_to_target : Option String → TargetInfo → Arm
  detached_from_target : Option String → Arm
  screencast_frame : Arm
  frame_navigated : Bool → Option String → Arm
  dom_content_event_fired : Arm
  request_will_be_sent : (request_id kind url frame_id : Option String) → Arm
  response_received : (request_id kind url frame_id : Option String) → Option ℕ → Arm
  data_received loading_finished : Option String → Option ℤ → Arm
  loading_failed : Option String → Option Bool → Option String → Arm
  other : Arm

-- A CDP event: `event.get("sessionId")` and the arm that its method names.
pub record Event : Type 0 where
  pub session_id : Option String
  pub arm : Arm

-- `d.get(k, "")`
abbrev pub text : Option String → String
text o = get_or o ""

abbrev pub is_page : TargetInfo → Bool
is_page t = text t.kind == "page"

-- a handler of the traffic module, on the accounts of the monitor
unfoldable pub on_traffic : {A : Type 0} → Exec Traffic A → Exec Monitor A
on_traffic f m = let (r, t) = f m.traffic in (r, record m { traffic = t })

unfoldable pub on_target_created : TargetInfo → Exec Monitor Unit
on_target_created t =
    if is_page t
    then modify_state (
        emit_cdp_event (record no_attributes {
          event = "tab_opened";
          tab_id = some (text t.target_id);
          tab_url = some (text t.url);
        }))
    else pure tt

abbrev pub new_session : String → TargetInfo → Session
new_session sid t = record {
  session_id = sid;
  target_id = text t.target_id;
  url = text t.url;
  main_frame_id = none;
  pending = [];
  last_url = "";
  captcha_probe_url = none;
  captcha_reported = [];
}

abbrev pub record_call : RecorderCall → Monitor → Monitor
record_call call m = record m { recorder = m.recorder ++ call ∷ [] }

abbrev pub request_of : String → NetworkRequest → Bool
request_of sid info = info.session_id == sid

-- `target_sessions.pop(session["target_id"], None)` for the session that was popped
abbrev pub forget_target : Option Session → Dict String String → Dict String String
forget_target none d = d
forget_target (some s) d = erase s.target_id d

abbrev pub drop_session : String → Monitor → Monitor
drop_session sid m = record m {
  sessions = erase sid m.sessions;
  target_sessions = forget_target (lookup sid m.sessions) m.target_sessions;
  network_requests = erase_each (keys_where (request_of sid) m.network_requests) m.network_requests;
}

unfoldable pub on_frame_navigated : String → Bool → Option String → Monitor → Monitor
on_frame_navigated sid has_parent frame_id m =
    if has_parent then m else elim (lookup sid m.sessions) [
      | none ↦ m
      | some session ↦ set_main_frame sid session frame_id m
    ]

unfoldable pub on_dom_content : String → Monitor → Monitor
on_dom_content sid m = elim (lookup sid m.sessions) [
  | none ↦ m
  | some session ↦ schedule_captcha_probe sid session.last_url m
]

abbrev pub track : String → NetworkRequest → Monitor → Monitor
track rid info m = record m { network_requests = insert rid info m.network_requests }

-- the entry of a request goes when the request has an answer
abbrev pub untrack : String → Monitor → Monitor
untrack rid m = record m { network_requests = erase rid m.network_requests }

unfoldable pub document_arrived : String → Pending → Option Session → Monitor → Monitor
document_arrived sid p none m = m
document_arrived sid p (some session) m = document_response sid session p m

unfoldable pub failed_of : NetworkRequest → String → Option Session → Monitor → Monitor
failed_of info error_text none m = m
failed_of info error_text (some session) m =
    emit_navigation_failed session info.url error_text
      (elim session.main_frame_id [ none ↦ false | some id ↦ info.frame_id == id ]) m

-- the part after `network_requests.pop`, on what was popped
unfoldable pub report_failure : Option NetworkRequest → Bool → String → Monitor → Monitor
unfolding failed_of
report_failure none canceled error_text m = m
report_failure (some info) canceled error_text m =
    if canceled then m else failed_of info error_text (lookup info.session_id m.sessions) m

module _ (env : Env) where
  -- `await conn.send(method, session_id=…)`
  unfoldable pub send_command : String → Payload → Option String → Exec Monitor ℕ
  send_command method p sid m =
      let (r, conn) = send (env.write_fault method) method p sid m.conn in
      (r, record m { conn = conn })

  abbrev pub list_session : String → TargetInfo → Monitor → Monitor
  list_session sid t m = record m {
    sessions = insert sid (new_session sid t) m.sessions;
    target_sessions = insert (text t.target_id) sid m.target_sessions;
    traffic = open_tab env.now sid (text t.target_id) (text t.url) m.traffic;
  }

  -- An exception of `start_recording` is caught, so the arm ends with the call.
  unfoldable pub on_attached : String → TargetInfo → Exec Monitor Unit
  unfolding send_command
  on_attached sid t = do
    modify_state (list_session sid t)
    send_command "Page.enable" empty (some sid)
    send_command "Network.enable" empty (some sid)
    send_command "Page.getFrameTree" empty (some sid)
    modify_state (record_call (start sid (text t.target_id) (text t.url)))

  -- `flush_closed_tabs(traffic.close_tab(sid))`
  unfoldable pub flush_tab : String → Monitor → Monitor
  flush_tab sid m =
      let (tab, traffic) = close_tab env.now sid m.traffic in
      flush_closed_tabs (present tab []) (record m { traffic = traffic })

  unfoldable pub on_detached : String → Exec Monitor Unit
  unfolding flush_tab
  on_detached sid = do
    modify_state (drop_session sid)
    modify_state (flush_tab sid)
    modify_state (record_call (stop sid))

  unfoldable pub on_request :
      String → (request_id kind url frame_id : Option String) → Exec Monitor Unit
  unfolding on_traffic
  on_request sid request_id kind url frame_id = do
    on_traffic (bind_request_host env.lib sid (text request_id) (text url))
    modify_if (is_some (non_empty request_id) && text kind == "Document") (
        track (text request_id)
          (record { url = text url; frame_id = text frame_id; session_id = sid }))

  unfoldable pub on_response :
      String → (request_id kind url frame_id : Option String) → Option ℕ → Exec Monitor Unit
  unfolding on_traffic document_arrived
  on_response sid request_id kind url frame_id status = do
    on_traffic (bind_request_host env.lib sid (text request_id) (text url))
    modify_state (untrack (text request_id))
    session ← gets (λ m. lookup sid m.sessions)
    modify_if (text kind == "Document") (
        document_arrived sid
          (record { frame_id = text frame_id; url = text url; status_code = get_or status 0 })
          session)

  -- `params.get("canceled", False)`
  unfoldable pub on_failed :
      Option String → Option String → Option Bool → Option String → Exec Monitor Unit
  unfolding on_traffic report_failure
  on_failed sid request_id canceled error_text = do
    on_traffic (on_loading_failed env.lib (text sid) (text request_id))
    info ← gets (λ m. lookup (text request_id) m.network_requests)
    modify_state (untrack (text request_id))
    modify_state (report_failure info (get_or canceled false) (text error_text))
