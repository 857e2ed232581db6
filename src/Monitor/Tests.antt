-- ===== src/Monitor/Tests.antt =====
-- Runs of the monitor, and each theorem at a concrete input.
use chrome_live.Base.{
  ◌+◌, String, ◌≡◌, refl, Option, none, some, List, [], ◌∷◌, ◌++◌, map, ◌==◌, string_key, sum_by,
  if◌then◌else◌,
}
use chrome_live.Base.Int.{pos}
use chrome_live.Dict.{lookup, insert, erase, modify, contains, elem}
use chrome_live.Dict.Keys.{IsDict, unless}
use chrome_live.Dict.Sums.{sum_values}
use chrome_live.Traffic.Hosts.{fallback_host}
use chrome_live.Traffic.Tabs.{of_session, close_all, open_tab, mark_reported}
use chrome_live.Traffic.Requests.{on_data_received, add_bytes}
use chrome_live.Connection.{send}
use chrome_live.Monitor.Reports.{flush_all}
use chrome_live.Traffic.Reporting.{unreported}
use chrome_live.Monitor.State.{Session, Pending, Env, Monitor, stop}
use chrome_live.Monitor.Navigation.{learn_frame}
use chrome_live.Monitor.Captcha.{schedule_captcha_probe}
use chrome_live.Monitor.Arms.{
  TargetInfo, attached_to_target, data_received, on_detached, on_attached, on_traffic, request_of,
}
use chrome_live.Monitor.Steps.{Step, event, rollup, reconnected, run, started}
use chrome_live.Monitor.Accounts.{delta_of}
use chrome_live.Monitor.Reported.Runs.{every_byte_reported}
use chrome_live.Monitor.Detach.{on_detached_lem}
use chrome_live.Monitor.Probes.{captcha_results, captcha_event, new_kinds, captcha_reported_once}
use chrome_live.Monitor.FrameOrder.{arrive_all, learn_frame_any_time}

abbrev sample_env : Env
sample_env = record {
  lib = record {
    urlsplit = λ url. some (record { scheme = "https"; hostname = some "a.example" });
    lower = λ x. x;
  };
  now = "t0";
  write_fault = λ method. none;
}

abbrev page : TargetInfo
page = record { kind = some "page"; target_id = some "T"; url = some "https://a.example/" }

-- A page that is attached, 700 bytes for it, a rollup, 200 bytes more, the loss of the connection.
abbrev sample_steps : List Step
sample_steps =
    event sample_env (record { session_id = none; arm = attached_to_target (some "S") page })
    ∷ event sample_env
        (record { session_id = some "S"; arm = data_received (some "r1") (some (pos 700)) })
    ∷ rollup
    ∷ event sample_env
        (record { session_id = some "S"; arm = data_received (some "r1") (some (pos 200)) })
    ∷ reconnected (λ sid. "t1")
    ∷ []

every_byte_reported_example :
    sum_by delta_of (run sample_steps started).log
      + sum_values unreported (run sample_steps started).traffic.tab_by_session
    ≡ (run sample_steps started).traffic.total_bytes
every_byte_reported_example = every_byte_reported sample_steps

sample_run :
    ((run sample_steps started).traffic.total_bytes ≡ 900)
    × (map delta_of (run sample_steps started).log ≡ 700 ∷ 200 ∷ [])
unfolding run lookup insert erase modify contains flush_all close_all on_traffic on_data_received
    on_attached send open_tab fallback_host add_bytes mark_reported
sample_run = (refl, refl)

abbrev session : Session
session = record {
  session_id = "S";
  target_id = "T";
  url = "https://a.example/";
  main_frame_id = none;
  pending = [];
  last_url = "";
  captcha_probe_url = none;
  captcha_reported = "hcaptcha" ∷ [];
}

abbrev known_page : Monitor
known_page = record started {
  sessions = ("S", session) ∷ [];
  network_requests =
      ("r1", record { url = "u"; frame_id = "F"; session_id = "S" })
      ∷ ("r2", record { url = "v"; frame_id = "G"; session_id = "Z" })
      ∷ [];
}

found_page : lookup "S" known_page.sessions ≡ some session
unfolding lookup
found_page = refl

two_requests : IsDict known_page.network_requests
unfolding lookup
two_requests = (refl, (refl, tt))

on_detached_lem_example :
    let m' = (on_detached sample_env "S" known_page).1 in
    ((j : String)
      → lookup j m'.sessions ≡ (if "S" == j then none else lookup j known_page.sessions))
    × ((rid : String)
        → lookup rid m'.network_requests
          ≡ unless (request_of "S") (lookup rid known_page.network_requests))
    × ((j : String)
        → lookup j m'.traffic.tab_by_session
          ≡ (if "S" == j then none else lookup j known_page.traffic.tab_by_session))
    × ((rid : String)
        → lookup rid m'.traffic.inflight
          ≡ unless (of_session "S") (lookup rid known_page.traffic.inflight))
    × (m'.recorder ≡ known_page.recorder ++ stop "S" ∷ [])
on_detached_lem_example = on_detached_lem sample_env "S" known_page two_requests tt

abbrev sample_results : List (Option String)
sample_results =
    some "unknown" ∷ some "cloudflare" ∷ none ∷ some "cloudflare" ∷ some "hcaptcha" ∷ some "" ∷ []

captcha_reported_once_example :
    (captcha_results "S" sample_results
      (schedule_captcha_probe "S" "https://a.example/login" known_page)).log
    ≡ known_page.log
      ++ map
          (captcha_event session.target_id "https://a.example/login")
          (new_kinds [] sample_results)
captcha_reported_once_example =
    captcha_reported_once "S" "https://a.example/login" sample_results session known_page found_page

new_kinds_run : new_kinds [] sample_results ≡ "cloudflare" ∷ "hcaptcha" ∷ []
unfolding new_kinds elem
new_kinds_run = refl

abbrev documents : List Pending
documents =
    record { frame_id = "F"; url = "https://a.example/"; status_code = 200 }
    ∷ record { frame_id = "G"; url = "https://ads.example/"; status_code = 404 }
    ∷ []

learn_frame_any_time_example :
    learn_frame "S" (some "F") (arrive_all "S" documents known_page)
    ≡ arrive_all "S" documents (learn_frame "S" (some "F") known_page)
learn_frame_any_time_example =
    learn_frame_any_time "S" "F" documents session known_page refl found_page refl
