-- ===== src/Modal.antt =====
-- bench/modal/modal_bench.py: the daemon that makes and ends sandboxes on command. What the calls of
-- the SDK return or raise during a command is in `Sdk`; times are milliseconds.
pub mod Waiting
pub mod Sandboxes
pub mod Replies
mod Tests
use chrome_live.Base.{
  ℕ, zero, suc, ◌+◌, ◌*◌, Bool, true, false, Option, none, some, List, [], ◌∷◌, ◌++◌, nat_beq, ltb,
  if◌then◌else◌, ◌==◌,
}
use chrome_live.Base.Text.{Text, codes, text_key, is_space, strip, strip_by}
use chrome_live.Base.Exec.{
  Exception, Outcome, Result, ok, err, Exec, pure, raise, lift, gets, modify_state, ◌>>=◌, ◌>>◌,
}
use chrome_live.Dict.{Dict, lookup}

-- What `_cdp_ok` returns at each round, and how long it takes.
abbrev pub Probes : Type 0
Probes = ℕ → Bool × ℕ

-- the time at the start of a round: each takes the probe and half a second
abbrev pub time_at : Probes → ℕ → ℕ → ℕ
time_at probes start zero = start
time_at probes start (suc k) = time_at probes start k + (probes k).1 + 500

-- `_wait_cdp`, from a round on; `none` if the fuel is used up.
unfoldable pub wait_cdp : Probes → ℕ → ℕ → ℕ → ℕ → Option Bool
wait_cdp probes start deadline zero k = none
wait_cdp probes start deadline (suc fuel) k =
    let rest = wait_cdp probes start deadline fuel (suc k) in
    if ltb (time_at probes start k) deadline
    then (if (probes k).0 then some true else rest)
    else some false

-- What the SDK does during a command. `ready` is what `_wait_cdp` returns; `message` and `shown` are
-- `str(e)` and `repr(e)` of the exception, where a call raises; `spec` and `urls` are the parts of
-- the replies that come from a sandbox and its tunnels.
pub record Sdk : Type 0 where
  pub finding : Outcome
  pub creating : Outcome
  pub tunnels : Outcome
  pub ready : Bool
  pub terminating : Outcome
  pub snapshotting : Outcome
  pub restoring : Outcome
  pub probing : Result ℕ
  pub message : Text
  pub shown : Text
  pub spec : Text
  pub urls : Text

-- A reply, with the text in it that is not fixed.
pub data Reply : Type 0 where
  snapshot_ok cdp_ok teardown_ok : Reply
  setup_ok trigger_ok snapshot_unsupported cdp_not_ready error : Text → Reply

-- `_state`, with the sandboxes that run, by number, and the replies that were printed
pub record Bench : Type 0 where
  pub current : Option ℕ
  pub has_snapshot : Bool
  pub made : ℕ
  pub live : List ℕ
  pub replies : List Reply

abbrev pub reply : Reply → Exec Bench Unit
reply r = modify_state (λ s. record s { replies = s.replies ++ r ∷ [] })

unfoldable pub remove_live : ℕ → List ℕ → List ℕ
remove_live n [] = []
remove_live n (m ∷ ms) = let rest = remove_live n ms in if nat_beq m n then rest else m ∷ rest

-- a sandbox that starts, where the call returns
unfoldable pub start_sandbox : Outcome → Exec Bench ℕ
start_sandbox (err e) s = (err e, s)
start_sandbox (ok u) s = (ok s.made, record s { made = s.made + 1; live = s.live ++ s.made ∷ [] })

unfoldable pub terminate : Outcome → ℕ → Exec Bench Unit
unfolding remove_live
terminate (err e) n s = (err e, s)
terminate (ok u) n s = (ok tt, record s { live = remove_live n s.live })

-- a statement whose exceptions are taken
unfoldable pub ignoring : Exec Bench Unit → Exec Bench Unit
ignoring m s = (ok tt, (m s).1)

abbrev pub terminate_if : Sdk → Option ℕ → Exec Bench Unit
unfolding terminate ignoring
terminate_if sdk none = pure tt
terminate_if sdk (some n) = ignoring (terminate sdk.terminating n)

abbrev pub set_current : Option ℕ → Exec Bench Unit
set_current n = modify_state (λ s. record s { current = n })

unfoldable pub terminate_current : Sdk → Exec Bench Unit
unfolding terminate ignoring
terminate_current sdk s = (terminate_if sdk s.current >> set_current none) s

unfoldable pub cmd_setup : Sdk → Exec Bench Unit
unfolding start_sandbox terminate
cmd_setup sdk = (lift sdk.finding >> start_sandbox sdk.creating) >>= λ n.
    ((lift sdk.tunnels >> terminate sdk.terminating n)
      >> reply (if sdk.ready then setup_ok sdk.spec else error []))

unfoldable pub cmd_trigger_cold : Sdk → Exec Bench Unit
unfolding start_sandbox terminate_current
cmd_trigger_cold sdk = (terminate_current sdk >> start_sandbox sdk.creating) >>= λ n.
    ((set_current (some n) >> lift sdk.tunnels) >> reply (trigger_ok sdk.urls))

-- The block under `try` of `cmd_snapshot`: whether Chrome was ready, after the snapshot was taken.
abbrev pub take_snapshot : Sdk → Result Bool
take_snapshot sdk = elim sdk.tunnels [
  | err e ↦ err e
  | ok u ↦ if sdk.ready then elim sdk.snapshotting [ err e ↦ err e | ok v ↦ ok true ] else ok false
]

-- the replies, and the block under `finally`
abbrev pub end_snapshot : Sdk → ℕ → Result Bool → Exec Bench Unit
unfolding terminate ignoring
end_snapshot sdk n (err e) =
    reply (snapshot_unsupported sdk.shown) >> ignoring (terminate sdk.terminating n)
end_snapshot sdk n (ok false) = reply (error []) >> ignoring (terminate sdk.terminating n)
end_snapshot sdk n (ok true) =
    (ignoring (terminate sdk.terminating n) >> modify_state (λ s. record s { has_snapshot = true }))
    >> reply snapshot_ok

abbrev pub snapshot_of : Sdk → Result ℕ → Exec Bench Unit
unfolding terminate ignoring
snapshot_of sdk (err e) = reply (snapshot_unsupported sdk.shown)
snapshot_of sdk (ok n) = end_snapshot sdk n (take_snapshot sdk)

unfoldable pub cmd_snapshot : Sdk → Exec Bench Unit
unfolding start_sandbox terminate ignoring
cmd_snapshot sdk s =
    let (created, s') = start_sandbox sdk.creating s in
    let made = snapshot_of sdk created s' in if s.has_snapshot then reply snapshot_ok s else made

abbrev pub resume_with : Sdk → Result ℕ → Exec Bench Unit
resume_with sdk (err e) = reply (error sdk.message)
resume_with sdk (ok n) = (set_current (some n) >> lift sdk.tunnels) >> reply (trigger_ok sdk.urls)

unfoldable pub cmd_trigger_resume : Sdk → Exec Bench Unit
unfolding start_sandbox terminate_current
cmd_trigger_resume sdk s =
    let (r, s') = terminate_current sdk s in
    let (restored, s'') = start_sandbox sdk.restoring s' in resume_with sdk restored s''

abbrev pub probe_reply : Sdk → Option ℕ → Result ℕ → Reply
probe_reply sdk none r = cdp_not_ready []
probe_reply sdk (some n) (ok code) = if nat_beq code 0 then cdp_ok else cdp_not_ready []
probe_reply sdk (some n) (err e) = cdp_not_ready sdk.message

unfoldable pub cmd_wait_cdp_internal : Sdk → Exec Bench Unit
cmd_wait_cdp_internal sdk s = reply (probe_reply sdk s.current sdk.probing) s

unfoldable pub cmd_teardown : Sdk → Exec Bench Unit
unfolding terminate_current
cmd_teardown sdk = terminate_current sdk >> reply teardown_ok

pub data Command : Type 0 where
  setup trigger_cold snapshot trigger_resume wait_cdp_internal teardown : Command

-- `HANDLERS`
abbrev pub handlers : Dict Text Command
handlers =
    (codes "setup", setup)
    ∷ (codes "trigger-cold", trigger_cold)
    ∷ (codes "snapshot", snapshot)
    ∷ (codes "trigger-resume", trigger_resume)
    ∷ (codes "wait-cdp-internal", wait_cdp_internal)
    ∷ (codes "teardown", teardown)
    ∷ []

unfoldable pub run_command : Command → Sdk → Exec Bench Unit
unfolding cmd_setup cmd_trigger_cold cmd_snapshot cmd_trigger_resume cmd_wait_cdp_internal
    cmd_teardown
run_command setup = cmd_setup
run_command trigger_cold = cmd_trigger_cold
run_command snapshot = cmd_snapshot
run_command trigger_resume = cmd_trigger_resume
run_command wait_cdp_internal = cmd_wait_cdp_internal
run_command teardown = cmd_teardown

-- what a handler that has raised is answered with
abbrev pub report : Sdk → Outcome × Bench → Bench
report sdk (ok u, s) = s
report sdk (err e, s) = (reply (error sdk.message) s).1

-- The answer to the line `cmd`, with the command of that name.
unfoldable pub answer : Text → Option Command → Sdk → Bench → Bench
unfolding run_command
answer cmd none sdk s = (reply (error cmd) s).1
answer cmd (some c) sdk s = report sdk (run_command c sdk s)

abbrev pub quit : Text
quit = codes "quit"

-- one line, which is not `quit`
unfoldable pub handle_line : Text → Sdk → Bench → Bench
unfolding answer lookup
handle_line cmd sdk s =
    let answered = answer cmd (lookup cmd handlers) sdk s in if cmd == [] then s else answered

unfoldable pub serve : List (Text × Sdk) → Bench → Bench
unfolding handle_line terminate_current strip_by
serve [] s = s
serve ((raw, sdk) ∷ lines) s =
    let cmd = strip raw in
    let stopped = (terminate_current sdk s).1 in
    let later = serve lines (handle_line cmd sdk s) in if cmd == quit then stopped else later
