-- ===== src/Monitor/Events.antt =====
-- `handle_event`, `handle_response` and the teardown of browser-trace/main.py.
use chrome_live.Base.{
  String, Option, none, some, [], ◌∷◌, ◌++◌, ◌==◌, string_key, get_or, if◌then◌else◌,
}
use chrome_live.Base.Int.{pos}
use chrome_live.Base.Exec.{Exec, pure, modify_state}
use chrome_live.Connection.{Reply, take_reply, close}
use chrome_live.Traffic.Hosts.{non_empty}
use chrome_live.Traffic.Requests.{on_data_received, on_loading_finished}
use chrome_live.Monitor.State.{Payload, empty, frame_tree, evaluated, frame, stop_all, Monitor, Env}
use chrome_live.Monitor.Navigation.{learn_frame}
use chrome_live.Monitor.Captcha.{captcha_result}
use chrome_live.Monitor.Reports.{flush_all}
use chrome_live.Monitor.Arms.{
  Arm, target_created, attached_to_target, detached_from_target, screencast_frame, frame_navigated,
  dom_content_event_fired, request_will_be_sent, response_received, data_received, loading_finished,
  loading_failed, other, Event, text, is_page, record_call, on_traffic, on_target_created,
  on_attached, on_detached, on_frame_navigated, on_dom_content, on_request, on_response, on_failed,
}

module _ (env : Env) where
  -- an arm that wants `session_id`
  abbrev pub for_session : Option String → (String → Exec Monitor Unit) → Exec Monitor Unit
  for_session sid body = elim (non_empty sid) [ none ↦ pure tt | some s ↦ body s ]

  unfoldable pub dispatch : Option String → Arm → Exec Monitor Unit
  dispatch sid (target_created t) = on_target_created t
  dispatch sid (attached_to_target target_sid t) =
      if is_page t then for_session target_sid (λ s. on_attached env s t) else pure tt
  dispatch sid (detached_from_target target_sid) = on_detached env (text target_sid)
  dispatch sid screencast_frame = for_session sid (λ s. modify_state (record_call (frame s)))
  dispatch sid (frame_navigated has_parent id) =
      for_session sid (λ s. modify_state (on_frame_navigated s has_parent id))
  dispatch sid dom_content_event_fired = for_session sid (λ s. modify_state (on_dom_content s))
  dispatch sid (request_will_be_sent rid kind url frame_id) =
      for_session sid (λ s. on_request env s rid kind url frame_id)
  dispatch sid (response_received rid kind url frame_id status) =
      for_session sid (λ s. on_response env s rid kind url frame_id status)
  dispatch sid (data_received rid n) =
      for_session sid (λ s. on_traffic (on_data_received env.lib s (text rid) (get_or n (pos 0))))
  dispatch sid (loading_finished rid n) =
      for_session sid
        (λ s. on_traffic (on_loading_finished env.lib s (text rid) (get_or n (pos 0))))
  dispatch sid (loading_failed rid canceled error_text) = on_failed env sid rid canceled error_text
  dispatch sid other = pure tt

  unfoldable pub handle_event : Event → Exec Monitor Unit
  unfolding dispatch
  handle_event e = dispatch e.session_id e.arm

-- `result["frameTree"]["frame"]["id"]`
abbrev pub tree_frame : Payload → Option String
tree_frame (frame_tree id) = id
tree_frame _ = none

-- `result["result"]["value"]`, where it is a text
abbrev pub evaluated_text : Payload → Option String
evaluated_text (evaluated value) = value
evaluated_text _ = none

unfoldable pub respond : String → Option String → Payload → Monitor → Monitor
respond method none result m = m
respond method (some sid) result m =
    if method == "Page.getFrameTree"
    then learn_frame sid (tree_frame result) m
    else if method == "Runtime.evaluate"
    then captcha_result sid (evaluated_text result) m
    else m

unfoldable pub respond_to : Option (String × Option String × Payload) → Monitor → Monitor
unfolding respond
respond_to none m = m
respond_to (some (method, sid, result)) m = respond method (non_empty sid) result m

unfoldable pub handle_response : Reply Payload → Monitor → Monitor
unfolding respond_to
handle_response r m =
    let (reply, conn) = take_reply empty r m.conn in respond_to reply (record m { conn = conn })

-- The end of a connection in `connect_cdp`: `conn.close()` and `drop_session_state()`; `clock` gives
-- the time stamps of the closed tabs.
unfoldable pub drop_session_state : (String → String) → Monitor → Monitor
drop_session_state clock m =
    let flushed = flush_all clock (record m { recorder = m.recorder ++ stop_all ∷ [] }) in
    record flushed { sessions = []; target_sessions = []; network_requests = [] }

unfoldable pub disconnect : (String → String) → Monitor → Monitor
unfolding drop_session_state
disconnect clock m = drop_session_state clock (record m { conn = close m.conn })
