-- ===== src/Monitor/Steps.antt =====
-- What can happen to the monitor of browser-trace/main.py, as steps: an event, a response, a shot of
-- a probe, a round of the traffic report, the end of a connection, with the next one.
use chrome_live.Base.{String, List, [], ◌∷◌}
use chrome_live.Connection.{Reply, fresh}
use chrome_live.Traffic.State.{initial}
use chrome_live.Monitor.State.{Payload, Monitor, Env, connected}
use chrome_live.Monitor.Captcha.{probe_shot}
use chrome_live.Monitor.Reports.{report_traffic}
use chrome_live.Monitor.Arms.{Event}
use chrome_live.Monitor.Events.{handle_event, handle_response, disconnect}

pub data Step : Type 0 where
  event : Env → Event → Step
  response : Reply Payload → Step
  shot : Env → String → String → Step
  rollup : Step
  reconnected : (String → String) → Step

-- The next connection in the loop of `connect_cdp`.
abbrev pub reconnect : Monitor → Monitor
reconnect m = record m { conn = fresh Payload }

unfoldable pub step : Step → Monitor → Monitor
unfolding handle_event handle_response probe_shot report_traffic disconnect
step (event env e) m = (handle_event env e m).1
step (response r) m = handle_response r m
step (shot env key url) m = (probe_shot env key url m).1
step rollup m = report_traffic m
step (reconnected clock) m = reconnect (disconnect clock m)

unfoldable pub run : List Step → Monitor → Monitor
unfolding step
run [] m = m
run (s ∷ ss) m = run ss (step s m)

-- The state of the process before its first event.
abbrev pub started : Monitor
started = connected initial [] []
