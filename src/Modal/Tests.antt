-- ===== src/Modal/Tests.antt =====
-- Runs of the daemon, and the theorems at concrete inputs.
use chrome_live.Base.{Bool, true, false, none, some, List, [], ◌∷◌, ◌++◌, ◌≡◌, refl, arith, leb}
use chrome_live.Base.Text.{Text, codes, text_key, is_space, strip_by, has_char}
use chrome_live.Base.Exec.{other_error, ok, err}
use chrome_live.Dict.{lookup}
use chrome_live.Modal.{
  Probes, wait_cdp, Sdk, Reply, Bench, remove_live, start_sandbox, terminate, ignoring,
  terminate_current, cmd_setup, cmd_trigger_cold, cmd_wait_cdp_internal, run_command, answer,
  handle_line, serve,
}
use chrome_live.Modal.Waiting.{Ends, wait_cdp-Ends}
use chrome_live.Modal.Replies.{line_feeds, printed, IsPlain, serve-replies}
use chrome_live.Modal.Sandboxes.{IsBench, serve-IsBench}

abbrev works : Sdk
works = record {
  finding = ok tt;
  creating = ok tt;
  tunnels = ok tt;
  ready = true;
  terminating = ok tt;
  snapshotting = ok tt;
  restoring = ok tt;
  probing = ok 0;
  message = [];
  shown = [];
  spec = codes "cmd=adapted-boot";
  urls = codes "https://a https://b";
}

abbrev idle : Bench
idle = record { current = none; has_snapshot = false; made = 0; live = []; replies = [] }

abbrev session : List (Text × Sdk)
session =
    (codes "setup\n", works)
    ∷ (codes "\n", works)
    ∷ (codes "trigger-cold\n", works)
    ∷ (codes "reset\n", works)
    ∷ (codes "wait-cdp-internal\n", works)
    ∷ []

run_session : serve session idle ≡ record {
  current = some 1;
  has_snapshot = false;
  made = 2;
  live = 1 ∷ [];
  replies =
      Reply.setup_ok (codes "cmd=adapted-boot")
      ∷ Reply.trigger_ok (codes "https://a https://b")
      ∷ Reply.error (codes "reset")
      ∷ Reply.cdp_ok
      ∷ [];
}
unfolding serve handle_line answer run_command cmd_setup cmd_trigger_cold cmd_wait_cdp_internal
    start_sandbox terminate terminate_current ignoring remove_live lookup strip_by is_space
run_session = refl

-- The sandbox of a `setup` whose tunnels are missing is not terminated, not even by `quit`.
leak :
    (serve
      ((codes "setup", record works { tunnels = err other_error }) ∷ (codes "quit", works) ∷ [])
      idle).live
    ≡ 0 ∷ []
unfolding serve handle_line answer run_command cmd_setup start_sandbox terminate terminate_current
    ignoring remove_live lookup strip_by is_space
leak = refl

-- An exception whose message has a line end is answered with two lines.
two_lines :
    printed
      (serve
        ((
          codes "trigger-cold\n",
          record works { creating = err other_error; message = codes "no quota\nsee the log" },
        )
          ∷ [])
        idle).replies
    ≡ 2
unfolding serve handle_line answer run_command cmd_trigger_cold start_sandbox terminate_current
    ignoring terminate lookup strip_by is_space line_feeds printed
two_lines = refl

works-IsPlain : IsPlain works
unfolding has_char
works-IsPlain = record { message = refl; shown = refl; spec = refl; urls = refl }

serve-replies_example : printed (serve session idle).replies ≡ 4
unfolding strip_by is_space has_char printed
serve-replies_example = serve-replies session idle (
  (works-IsPlain, refl),
  (
    (works-IsPlain, refl),
    ((works-IsPlain, refl), ((works-IsPlain, refl), ((works-IsPlain, refl), tt))),
  ),
)

serve-IsBench_example :
    IsBench (serve (session ++ (codes "quit", works) ∷ []) idle)
    × ((serve (session ++ (codes "quit", works) ∷ []) idle).live ≡ [])
unfolding strip_by is_space
serve-IsBench_example =
    serve-IsBench (session ++ (codes "quit", works) ∷ []) idle
      (
        record { terminating = refl; tunnels = refl },
        (
          record { terminating = refl; tunnels = refl },
          (
            record { terminating = refl; tunnels = refl },
            (
              record { terminating = refl; tunnels = refl },
              (
                record { terminating = refl; tunnels = refl },
                (record { terminating = refl; tunnels = refl }, tt),
              ),
            ),
          ),
        ),
      )
      (refl, tt)

-- Chrome answers at the third probe.
abbrev slow : Probes
slow k = (leb 2 k, 100)

wait_cdp-Ends_example :
    (result : Bool) × (wait_cdp slow 0 2000 5 0 ≡ some result) × Ends slow 0 2000 0 result
wait_cdp-Ends_example = wait_cdp-Ends slow 0 2000 4 0 (omega arith)
