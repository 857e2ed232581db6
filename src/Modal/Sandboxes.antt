-- ===== src/Modal/Sandboxes.antt =====
-- Which sandboxes run.
use chrome_live.Base.{
  ℕ, ◌<◌, Bool, true, false, Option, none, some, List, [], ◌∷◌, ◌≡◌, arith, if◌then◌else◌, ◌==◌,
  All, Bool-cases, inl, inr,
}
use chrome_live.Base.Text.{Text, text_key, is_space, strip, strip_by}
use chrome_live.Base.Exec.{Outcome, ok, err}
use chrome_live.Dict.{lookup}
use chrome_live.Modal.{
  Sdk, Bench, Command, remove_live, start_sandbox, terminate, ignoring, terminate_current,
  cmd_setup, cmd_trigger_cold, cmd_snapshot, cmd_trigger_resume, cmd_wait_cdp_internal,
  cmd_teardown, run_command, report, answer, quit, handle_line, serve, handlers,
}

abbrev pub to_list : Option ℕ → List ℕ
to_list none = []
to_list (some n) = n ∷ []

abbrev Below : Option ℕ → ℕ → Type 0
Below none made = Unit
Below (some n) made = n < made

-- The current sandbox is the only one that runs, and its number was given.
abbrev pub IsBench : Bench → Type 0
IsBench s = (s.live ≡ to_list s.current) × Below s.current s.made

-- The terminations of a command succeed, and the tunnels of a sandbox are there.
pub record Works (sdk : Sdk) : Type 0 where
  pub terminating : sdk.terminating ≡ ok tt
  pub tunnels : sdk.tunnels ≡ ok tt

terminate_current-IsBench :
    (sdk : Sdk) (s : Bench)
    → Works sdk
    → IsBench s
    → let t = (terminate_current sdk s).1 in (t.live ≡ []) × (t.current ≡ none) × (t.made ≡ s.made)
unfolding terminate_current ignoring terminate remove_live
terminate_current-IsBench sdk s w i = ground (arith, w.terminating, i.0, i.1)

cmd_setup-IsBench : (sdk : Sdk) (s : Bench) → Works sdk → IsBench s → IsBench (cmd_setup sdk s).1
unfolding cmd_setup start_sandbox terminate remove_live
cmd_setup-IsBench sdk s w i = ground (arith, w.terminating, w.tunnels, i.0, i.1)

cmd_snapshot-IsBench :
    (sdk : Sdk) (s : Bench) → Works sdk → IsBench s → IsBench (cmd_snapshot sdk s).1
unfolding cmd_snapshot start_sandbox ignoring terminate remove_live
cmd_snapshot-IsBench sdk s w i = ground (arith, w.terminating, w.tunnels, i.0, i.1)

cmd_trigger_cold-IsBench :
    (sdk : Sdk) (s : Bench) → Works sdk → IsBench s → IsBench (cmd_trigger_cold sdk s).1
unfolding cmd_trigger_cold start_sandbox terminate_current ignoring terminate remove_live
cmd_trigger_cold-IsBench sdk s w i = ground (arith, w.terminating, w.tunnels, i.0, i.1)

cmd_trigger_resume-IsBench :
    (sdk : Sdk) (s : Bench) → Works sdk → IsBench s → IsBench (cmd_trigger_resume sdk s).1
unfolding cmd_trigger_resume start_sandbox terminate_current ignoring terminate remove_live
cmd_trigger_resume-IsBench sdk s w i = ground (arith, w.terminating, w.tunnels, i.0, i.1)

cmd_teardown-IsBench :
    (sdk : Sdk) (s : Bench) → Works sdk → IsBench s → IsBench (cmd_teardown sdk s).1
unfolding cmd_teardown terminate_current ignoring terminate remove_live
cmd_teardown-IsBench sdk s w i = ground (arith, w.terminating, i.0, i.1)

run_command-IsBench :
    (c : Command) (sdk : Sdk) (s : Bench) → Works sdk → IsBench s → IsBench (run_command c sdk s).1
unfolding run_command cmd_wait_cdp_internal
run_command-IsBench Command.setup = cmd_setup-IsBench
run_command-IsBench Command.trigger_cold = cmd_trigger_cold-IsBench
run_command-IsBench Command.snapshot = cmd_snapshot-IsBench
run_command-IsBench Command.trigger_resume = cmd_trigger_resume-IsBench
run_command-IsBench Command.wait_cdp_internal = λ sdk s w i. i
run_command-IsBench Command.teardown = cmd_teardown-IsBench

report-IsBench : (sdk : Sdk) (r : Outcome × Bench) → IsBench r.1 → IsBench (report sdk r)
report-IsBench sdk (ok u, t) i = i
report-IsBench sdk (err e, t) i = i

answer-IsBench :
    (cmd : Text) (c : Option Command) (sdk : Sdk) (s : Bench)
    → Works sdk
    → IsBench s
    → IsBench (answer cmd c sdk s)
unfolding answer
answer-IsBench cmd none sdk s w i = i
answer-IsBench cmd (some c) sdk s w i =
    report-IsBench sdk (run_command c sdk s) (run_command-IsBench c sdk s w i)

-- the daemon is asked to quit
abbrev pub quits : List (Text × Sdk) → Bool
unfolding strip_by is_space
quits [] = false
quits ((raw, sdk) ∷ lines) = let later = quits lines in if strip raw == quit then true else later

-- From a state in which the current sandbox, if there is one, is the only one that runs, whatever
-- the commands are and whatever else raises: if the terminations succeed and the tunnels of the
-- sandboxes are there, this holds after any lines, and no sandbox runs after `quit`.
pub serve-IsBench :
    (lines : List (Text × Sdk)) (s : Bench)
    → All (λ line. Works line.1) lines
    → IsBench s
    → IsBench (serve lines s)
      × ((serve lines s).live ≡ (if quits lines then [] else to_list (serve lines s).current))
unfolding serve handle_line quits
serve-IsBench [] s w i = (i, i.0)
serve-IsBench ((raw, sdk) ∷ lines) s w i = elim (Bool-cases (strip raw == quit)) [
  | inl stops ↦
      let (live, current, made) = terminate_current-IsBench sdk s w.0 i in
      rw stops ((ground (arith, live, current), live))
  | inr goes ↦ elim (Bool-cases (strip raw == [])) [
    | inl blank ↦ rw (goes, blank) (serve-IsBench lines s w.1 i)
    | inr asks ↦
        let c = lookup (strip raw) handlers in
        rw (goes, asks)
          (serve-IsBench lines (answer (strip raw) c sdk s) w.1
            (answer-IsBench (strip raw) c sdk s w.0 i))
  ]
]
