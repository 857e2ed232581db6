-- ===== src/Monitor/Probes.antt =====
-- The CAPTCHA results of one page: each kind is reported once, at its first result.
use chrome_live.Base.{
  String, ◌≡◌, refl, Bool, true, false, Option, none, some, List, [], ◌∷◌, ◌++◌, map, arith, ◌==◌,
  string_key, Bool-cases, inl, inr, if◌then◌else◌, ==-refl, ◌∙◌, ap, sym, get_or,
}
use mathlib.Core.List.{append-nil, append_assoc}
use chrome_live.Dict.{lookup, elem}
use chrome_live.Dict.Laws.{lookup-modify}
use chrome_live.Monitor.State.{Session, LogEvent, Monitor}
use chrome_live.Monitor.Emit.{no_attributes, emit_captcha_detected}
use chrome_live.Monitor.Captcha.{
  report_kind, captcha_result, add_reported, schedule_captcha_probe, reset_probe,
}

-- The results of several probes, one after the other.
unfoldable pub captcha_results : String → List (Option String) → Monitor → Monitor
unfolding captcha_result
captcha_results key [] m = m
captcha_results key (value ∷ values) m = captcha_results key values (captcha_result key value m)

-- a kind that is worth a report: a vendor's name that was not seen
abbrev pub is_new : List String → String → Bool
is_new seen kind =
    if kind == ""
    then false
    else if kind == "unknown"
    then false
    else if elem kind seen
    then false
    else true

-- the kinds of a list of results that are worth a report, in order
unfoldable pub new_kinds : List String → List (Option String) → List String
new_kinds seen [] = []
new_kinds seen (none ∷ values) = new_kinds seen values
new_kinds seen (some kind ∷ values) =
    let rest = new_kinds seen values in
    let rest' = new_kinds (seen ++ kind ∷ []) values in
    if is_new seen kind then kind ∷ rest' else rest

abbrev pub captcha_event : String → String → String → LogEvent
captcha_event target_id url kind = record no_attributes {
  event = "captcha_detected";
  tab_id = some target_id;
  tab_url = some url;
  captcha_kind = some kind;
}

-- One result: what it logs, and what the session has seen afterwards.
captcha_result-new :
    (key kind : String) (session : Session) (m : Monitor)
    → lookup key m.sessions ≡ some session
    → is_new session.captcha_reported kind ≡ true
    → let m' = captcha_result key (some kind) m in
      (lookup key m'.sessions ≡ some (add_reported kind session))
      × (m'.log
          ≡ m.log
            ++ captcha_event session.target_id (get_or session.captcha_probe_url "") kind ∷ [])
unfolding captcha_result report_kind emit_captcha_detected
captcha_result-new key kind session m found new =
    ground (arith, found, ==-refl key, lookup-modify key key (add_reported kind) m.sessions)

captcha_result-old :
    (key kind : String) (session : Session) (m : Monitor)
    → lookup key m.sessions ≡ some session
    → is_new session.captcha_reported kind ≡ false
    → captcha_result key (some kind) m ≡ m
unfolding captcha_result report_kind
captcha_result-old key kind session m found old = ground (arith, found)

captcha_result-none : (key : String) (m : Monitor) → captcha_result key none m ≡ m
unfolding captcha_result report_kind
captcha_result-none key m = refl

-- The results for a known session log one event for each new kind, in order.
logged :
    (key : String) (values : List (Option String)) (session : Session) (m : Monitor)
    → lookup key m.sessions ≡ some session
    → (captcha_results key values m).log
      ≡ m.log
        ++ map
            (captcha_event session.target_id (get_or session.captcha_probe_url ""))
            (new_kinds session.captcha_reported values)
unfolding captcha_results new_kinds
logged key [] session m found = sym (append-nil m.log)
logged key (none ∷ values) session m found =
    ap (λ (m' : Monitor). (captcha_results key values m').log) (captcha_result-none key m)
    ∙ logged key values session m found
logged key (some kind ∷ values) session m found =
    elim (Bool-cases (is_new session.captcha_reported kind)) [
      | inl new ↦
          let (here, said) = captcha_result-new key kind session m found new in
          let rest =
            logged key values (add_reported kind session) (captcha_result key (some kind) m) here in
          rw new (
            rest
            ∙ ap
                (λ (l : List LogEvent).
                  l
                  ++ map (captcha_event session.target_id (get_or session.captcha_probe_url ""))
                      (new_kinds (session.captcha_reported ++ kind ∷ []) values))
                said
            ∙ append_assoc m.log _ _)
      | inr old ↦ rw old (
          ap (λ (m' : Monitor). (captcha_results key values m').log)
            (captcha_result-old key kind session m found old)
          ∙ logged key values session m found)
    ]

schedule-found :
    (key url : String) (session : Session) (m : Monitor)
    → lookup key m.sessions ≡ some session
    → lookup key (schedule_captcha_probe key url m).sessions ≡ some (reset_probe url session)
unfolding schedule_captcha_probe
schedule-found key url session m found =
    ground (arith, found, ==-refl key, lookup-modify key key (reset_probe url) m.sessions)

-- When a probe has been armed for a page of a known session, the results of its shots log one event
-- for each kind that is neither empty nor "unknown", at the first result of that kind, with the
-- page that the probe was armed for, whatever was reported for the page before.
pub captcha_reported_once :
    (key url : String) (values : List (Option String)) (session : Session) (m : Monitor)
    → lookup key m.sessions ≡ some session
    → (captcha_results key values (schedule_captcha_probe key url m)).log
      ≡ m.log ++ map (captcha_event session.target_id url) (new_kinds [] values)
unfolding schedule_captcha_probe
captcha_reported_once key url values session m found =
    logged key values (reset_probe url session) (schedule_captcha_probe key url m)
      (schedule-found key url session m found)
