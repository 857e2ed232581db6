-- ===== src/Monitor/Reported/Runs.antt =====
-- The arms of `handle_event` and whole runs of the monitor keep the byte reports in balance.
use chrome_live.Base.{
  ℕ, ◌+◌, String, Bool, true, false, ◌≡◌, refl, Option, none, some, List, [], ◌∷◌, ◌++◌, arith,
  Bool-cases, Option-cases, inl, inr, string_key, ◌==◌, get_or, sum_by,
}
use chrome_live.Base.Int.{pos}
use chrome_live.Base.Exec.{Exec}
use chrome_live.Base.Exec.Keeps.{Keeps, Keeps-pure, Keeps-modify, Keeps-modify_if, keeps_rules}
use chrome_live.Dict.{lookup}
use chrome_live.Dict.Sums.{sum_values}
use chrome_live.Connection.{close, take_reply}
use chrome_live.Traffic.Hosts.{non_empty}
use chrome_live.Traffic.Tabs.{close_tab, present}
use chrome_live.Traffic.Reporting.{unreported}
use chrome_live.Traffic.Reporting.Handlers.{
  open_tab-HasReported, bind_request_host-HasReported, on_data_received-HasReported,
  on_loading_finished-HasReported, on_loading_failed-HasReported,
}
use chrome_live.Monitor.State.{NetworkRequest, Payload, RecorderCall, stop_all, empty, Monitor, Env}
use chrome_live.Monitor.Emit.{emit_cdp_event}
use chrome_live.Monitor.Reports.{flush_all}
use chrome_live.Monitor.Arms.{
  TargetInfo, Arm, target_created, attached_to_target, detached_from_target, screencast_frame,
  frame_navigated, dom_content_event_fired, request_will_be_sent, response_received, data_received,
  loading_finished, loading_failed, other, text, is_page, on_target_created, on_attached,
  on_detached, drop_session, flush_tab, list_session, on_frame_navigated, on_dom_content,
  on_request, on_response, on_failed, track, untrack, record_call,
}
use chrome_live.Monitor.Events.{
  tree_frame, evaluated_text, for_session, dispatch, respond, respond_to,
}
use chrome_live.Monitor.Steps.{Step, event, response, shot, rollup, reconnected, step, run, started}
use chrome_live.Monitor.Accounts.{
  delta_of, IsAccounted, apart-Owes, on_traffic-Owes, close_tab-Owes, flush_closed_tabs-Owes,
  report_traffic-Owes, flush_all-Owes,
}
use chrome_live.Monitor.Reported.{
  log_plain, set_main_frame-Owes, document_arrived-Owes, report_failure-Owes, learn_frame-Owes,
  captcha_result-Owes, schedule-Owes, send_command-Owes,
}

record_call-Owes :
    (call : RecorderCall) (m : Monitor) → IsAccounted m → IsAccounted (record_call call m)
record_call-Owes call m h = apart-Owes 0 m _ refl refl h

drop_session-Owes : (sid : String) (m : Monitor) → IsAccounted m → IsAccounted (drop_session sid m)
drop_session-Owes sid m h = apart-Owes 0 m _ refl refl h

untrack-Owes : (rid : String) (m : Monitor) → IsAccounted m → IsAccounted (untrack rid m)
untrack-Owes rid m h = apart-Owes 0 m _ refl refl h

track-Owes :
    (rid : String) (info : NetworkRequest) (m : Monitor)
    → IsAccounted m
    → IsAccounted (track rid info m)
track-Owes rid info m h = apart-Owes 0 m _ refl refl h

on_frame_navigated-Owes :
    (sid : String) (has_parent : Bool) (id : Option String) (m : Monitor)
    → IsAccounted m
    → IsAccounted (on_frame_navigated sid has_parent id m)
unfolding on_frame_navigated
on_frame_navigated-Owes sid true id m h = h
on_frame_navigated-Owes sid false id m h = elim (Option-cases (lookup sid m.sessions)) [
  | inl unknown ↦ rw unknown h
  | inr (session, found) ↦ rw found (set_main_frame-Owes sid session id m h)
]

on_dom_content-Owes :
    (sid : String) (m : Monitor) → IsAccounted m → IsAccounted (on_dom_content sid m)
unfolding on_dom_content
on_dom_content-Owes sid m h = elim (Option-cases (lookup sid m.sessions)) [
  | inl unknown ↦ rw (unknown, on_dom_content) h
  | inr (session, found) ↦ rw (found, on_dom_content) (schedule-Owes sid session.last_url m h)
]

on_target_created-Owes : (t : TargetInfo) → Keeps IsAccounted (on_target_created t)
unfolding on_target_created emit_cdp_event
on_target_created-Owes t = elim (Bool-cases (is_page t)) [
  | inl page ↦ rw page (Keeps-modify _ (λ m h. log_plain _ m _ refl refl refl h))
  | inr no_page ↦ rw no_page (Keeps-pure tt)
]

ruleset step_rules = (keeps_rules, Keeps-modify_if, on_traffic-Owes, send_command-Owes)

module _ (env : Env) where
  list_session-Owes :
      (sid : String) (t : TargetInfo) (m : Monitor)
      → IsAccounted m
      → IsAccounted (list_session env sid t m)
  list_session-Owes sid t m h = record {
    books = open_tab-HasReported _ env.now sid (text t.target_id) (text t.url) m.traffic h.books;
  }

  flush_tab-Owes : (sid : String) (m : Monitor) → IsAccounted m → IsAccounted (flush_tab env sid m)
  unfolding flush_tab
  flush_tab-Owes sid m h =
      let (tab, traffic) = close_tab env.now sid m.traffic in
      flush_closed_tabs-Owes (present tab []) (record m { traffic = traffic })
        (close_tab-Owes env.now sid m h)

  on_attached-Owes : (sid : String) (t : TargetInfo) → Keeps IsAccounted (on_attached env sid t)
  unfolding on_attached
  on_attached-Owes sid t = search (step_rules, list_session-Owes, record_call-Owes) depth 12

  on_detached-Owes : (sid : String) → Keeps IsAccounted (on_detached env sid)
  unfolding on_detached
  on_detached-Owes sid =
      search (step_rules, drop_session-Owes, flush_tab-Owes, record_call-Owes) depth 12

  on_request-Owes :
      (sid : String) (rid kind url frame_id : Option String)
      → Keeps IsAccounted (on_request env sid rid kind url frame_id)
  unfolding on_request
  on_request-Owes sid rid kind url frame_id =
      search (step_rules, bind_request_host-HasReported, track-Owes) depth 12

  on_response-Owes :
      (sid : String) (rid kind url frame_id : Option String) (status : Option ℕ)
      → Keeps IsAccounted (on_response env sid rid kind url frame_id status)
  unfolding on_response
  on_response-Owes sid rid kind url frame_id status =
      search (step_rules, bind_request_host-HasReported, untrack-Owes, document_arrived-Owes) depth
        12

  on_failed-Owes :
      (sid rid : Option String) (canceled : Option Bool) (error_text : Option String)
      → Keeps IsAccounted (on_failed env sid rid canceled error_text)
  unfolding on_failed
  on_failed-Owes sid rid canceled error_text =
      search (step_rules, on_loading_failed-HasReported, untrack-Owes, report_failure-Owes) depth 12

  for_session-Owes :
      (sid : Option String) (body : String → Exec Monitor Unit)
      → ((s : String) → Keeps IsAccounted (body s))
      → Keeps IsAccounted (for_session env sid body)
  for_session-Owes sid body h = elim (Option-cases (non_empty sid)) [
    | inl absent ↦ rw (absent, for_session) (Keeps-pure tt)
    | inr (s, given) ↦ rw (given, for_session) (h s)
  ]

  dispatch-Owes : (sid : Option String) (arm : Arm) → Keeps IsAccounted (dispatch env sid arm)
  unfolding dispatch
  dispatch-Owes sid (target_created t) = on_target_created-Owes t
  dispatch-Owes sid (attached_to_target target_sid t) = elim (Bool-cases (is_page t)) [
    | inl page ↦ rw page (for_session-Owes target_sid _ (λ s. on_attached-Owes s t))
    | inr no_page ↦ rw no_page (Keeps-pure tt)
  ]
  dispatch-Owes sid (detached_from_target target_sid) = on_detached-Owes (text target_sid)
  dispatch-Owes sid screencast_frame =
      for_session-Owes sid _ (λ s. Keeps-modify _ (record_call-Owes _))
  dispatch-Owes sid (frame_navigated has_parent id) =
      for_session-Owes sid _ (λ s. Keeps-modify _ (on_frame_navigated-Owes s has_parent id))
  dispatch-Owes sid dom_content_event_fired =
      for_session-Owes sid _ (λ s. Keeps-modify _ (on_dom_content-Owes s))
  dispatch-Owes sid (request_will_be_sent rid kind url frame_id) =
      for_session-Owes sid _ (λ s. on_request-Owes s rid kind url frame_id)
  dispatch-Owes sid (response_received rid kind url frame_id status) =
      for_session-Owes sid _ (λ s. on_response-Owes s rid kind url frame_id status)
  dispatch-Owes sid (data_received rid n) = for_session-Owes sid _ (λ s.
      on_traffic-Owes 0 _
        (λ k. on_data_received-HasReported k env.lib s (text rid) (get_or n (pos 0))))
  dispatch-Owes sid (loading_finished rid n) = for_session-Owes sid _ (λ s.
      on_traffic-Owes 0 _
        (λ k. on_loading_finished-HasReported k env.lib s (text rid) (get_or n (pos 0))))
  dispatch-Owes sid (loading_failed rid canceled error_text) =
      on_failed-Owes sid rid canceled error_text
  dispatch-Owes sid other = Keeps-pure tt

respond-Owes :
    (method : String) (sid : Option String) (result : Payload) (m : Monitor)
    → IsAccounted m
    → IsAccounted (respond method sid result m)
unfolding respond
respond-Owes method none result m h = h
respond-Owes method (some sid) result m h = elim (Bool-cases (method == "Page.getFrameTree")) [
  | inl tree ↦ rw tree (learn_frame-Owes sid (tree_frame result) m h)
  | inr no_tree ↦ elim (Bool-cases (method == "Runtime.evaluate")) [
    | inl probe ↦ rw (no_tree, probe) (captcha_result-Owes sid (evaluated_text result) m h)
    | inr no_probe ↦ rw (no_tree, no_probe) h
  ]
]

respond_to-Owes :
    (reply : Option (String × Option String × Payload)) (m : Monitor)
    → IsAccounted m
    → IsAccounted (respond_to reply m)
unfolding respond_to
respond_to-Owes none m h = h
respond_to-Owes (some (method, sid, result)) m h = respond-Owes method (non_empty sid) result m h

step-Owes : (s : Step) (m : Monitor) → IsAccounted m → IsAccounted (step s m)
unfolding step
step-Owes (event env e) m h = (dispatch-Owes env e.session_id e.arm).after m h
step-Owes (response r) m h =
    respond_to-Owes (take_reply empty r m.conn).0
      (record m { conn = (take_reply empty r m.conn).1 }) (apart-Owes 0 m _ refl refl h)
step-Owes (shot env key url) m h = ground (arith, h)
step-Owes rollup m h = report_traffic-Owes m h
step-Owes (reconnected clock) m h =
    let quiet = record m { conn = close m.conn; recorder = m.recorder ++ stop_all ∷ [] } in
    apart-Owes 0 (flush_all clock quiet) _ refl refl
      (flush_all-Owes clock quiet (apart-Owes 0 m quiet refl refl h))

run-Owes : (ss : List Step) (m : Monitor) → IsAccounted m → IsAccounted (run ss m)
unfolding run
run-Owes [] m h = h
run-Owes (s ∷ ss) m h = run-Owes ss (step s m) (step-Owes s m h)

started-Owes : IsAccounted started
started-Owes = record { books = record { tabs = tt; sane = tt; exact = refl } }

-- From the start of the process, after any sequence of events, replies, shots of probes, rounds of the traffic report and lost
-- connections, whatever was raised on the way, the deltas of the traffic events that were logged
-- and the bytes that the open tabs have not reported yet add up to all bytes that were counted.
pub every_byte_reported :
    (ss : List Step)
    → let m = run ss started in
      sum_by delta_of m.log + sum_values unreported m.traffic.tab_by_session ≡ m.traffic.total_bytes
every_byte_reported ss = omega (arith, (run-Owes ss started started-Owes).books.exact)
