-- ===== src/Modal/Replies.antt =====
-- How many lines the daemon prints.
use chrome_live.Base.{
  ℕ, suc, ◌+◌, Option, none, some, List, [], ◌∷◌, ◌++◌, ◌≡◌, refl, ap, ◌∙◌, false, nat_beq, All,
  arith, if◌then◌else◌, ◌==◌, Bool-cases, inl, inr,
}
use chrome_live.Base.Text.{Text, text_key, is_space, strip, strip_by, has_char}
use chrome_live.Base.Exec.{Outcome, Result, ok, err}
use chrome_live.Dict.{lookup}
use chrome_live.Modal.{
  Sdk, Reply, Bench, Command, start_sandbox, terminate, ignoring, terminate_current, cmd_setup,
  cmd_trigger_cold, cmd_snapshot, cmd_trigger_resume, cmd_wait_cdp_internal, cmd_teardown,
  run_command, report, answer, quit, handle_line, serve, probe_reply, handlers,
}

unfoldable pub line_feeds : Text → ℕ
line_feeds [] = 0
line_feeds (c ∷ x) = if nat_beq c 10 then suc (line_feeds x) else line_feeds x

-- the text of a reply that is not fixed
abbrev detail : Reply → Text
detail Reply.snapshot_ok = []
detail Reply.cdp_ok = []
detail Reply.teardown_ok = []
detail (Reply.setup_ok x) = x
detail (Reply.trigger_ok x) = x
detail (Reply.snapshot_unsupported x) = x
detail (Reply.cdp_not_ready x) = x
detail (Reply.error x) = x

-- the lines on the standard output: each reply is one, with one more for each line feed in it
unfoldable pub printed : List Reply → ℕ
unfolding line_feeds
printed [] = 0
printed (r ∷ rs) = suc (line_feeds (detail r) + printed rs)

-- The texts of an SDK that are put into replies have no line feed.
pub record IsPlain (sdk : Sdk) : Type 0 where
  pub message : has_char 10 sdk.message ≡ false
  pub shown : has_char 10 sdk.shown ≡ false
  pub spec : has_char 10 sdk.spec ≡ false
  pub urls : has_char 10 sdk.urls ≡ false

line_feeds-zero : (x : Text) → has_char 10 x ≡ false → line_feeds x ≡ 0
unfolding has_char line_feeds
line_feeds-zero [] h = refl
line_feeds-zero (c ∷ x) h = ground (arith, line_feeds-zero x)

printed-reply :
    (rs : List Reply) (r : Reply)
    → has_char 10 (detail r) ≡ false
    → printed (rs ++ r ∷ []) ≡ suc (printed rs)
unfolding printed
printed-reply [] r h = rw (line_feeds-zero (detail r) h) refl
printed-reply (q ∷ rs) r h = omega (arith, printed-reply rs r h)

-- One line is written by a command that returns, none by one that raises.
abbrev Wrote : Bench → Outcome × Bench → Type 0
Wrote s (ok u, t) = printed t.replies ≡ suc (printed s.replies)
Wrote s (err e, t) = printed t.replies ≡ printed s.replies

terminate-replies : (o : Outcome) (n : ℕ) (s : Bench) → (terminate o n s).1.replies ≡ s.replies
unfolding terminate
terminate-replies (ok u) n s = refl
terminate-replies (err e) n s = refl

terminate_current-replies :
    (sdk : Sdk) (s : Bench) → (terminate_current sdk s).1.replies ≡ s.replies
unfolding terminate_current ignoring terminate
terminate_current-replies sdk s = ground arith

cmd_setup-Wrote : (sdk : Sdk) (s : Bench) → IsPlain sdk → Wrote s (cmd_setup sdk s)
unfolding cmd_setup start_sandbox terminate has_char
cmd_setup-Wrote sdk s p = ground (
  arith,
  printed-reply s.replies (Reply.setup_ok sdk.spec) p.spec,
  printed-reply s.replies (Reply.error []) refl,
)

cmd_trigger_cold-Wrote : (sdk : Sdk) (s : Bench) → IsPlain sdk → Wrote s (cmd_trigger_cold sdk s)
unfolding cmd_trigger_cold start_sandbox terminate_current ignoring terminate
cmd_trigger_cold-Wrote sdk s p =
    ground (arith, printed-reply s.replies (Reply.trigger_ok sdk.urls) p.urls)

cmd_snapshot-Wrote : (sdk : Sdk) (s : Bench) → IsPlain sdk → Wrote s (cmd_snapshot sdk s)
unfolding cmd_snapshot start_sandbox ignoring terminate has_char
cmd_snapshot-Wrote sdk s p = ground (
  arith,
  printed-reply s.replies Reply.snapshot_ok refl,
  printed-reply s.replies (Reply.snapshot_unsupported sdk.shown) p.shown,
  printed-reply s.replies (Reply.error []) refl,
)

cmd_trigger_resume-Wrote :
    (sdk : Sdk) (s : Bench) → IsPlain sdk → Wrote s (cmd_trigger_resume sdk s)
unfolding cmd_trigger_resume start_sandbox terminate_current ignoring terminate
cmd_trigger_resume-Wrote sdk s p = ground (
  arith,
  printed-reply s.replies (Reply.trigger_ok sdk.urls) p.urls,
  printed-reply s.replies (Reply.error sdk.message) p.message,
)

cmd_teardown-Wrote : (sdk : Sdk) (s : Bench) → IsPlain sdk → Wrote s (cmd_teardown sdk s)
unfolding cmd_teardown terminate_current ignoring terminate has_char
cmd_teardown-Wrote sdk s p = ground (arith, printed-reply s.replies Reply.teardown_ok refl)

probe_reply-IsPlain :
    (sdk : Sdk) (n : Option ℕ) (r : Result ℕ)
    → IsPlain sdk
    → has_char 10 (detail (probe_reply sdk n r)) ≡ false
unfolding has_char
probe_reply-IsPlain sdk none r p = refl
probe_reply-IsPlain sdk (some n) (ok code) p = ground arith
probe_reply-IsPlain sdk (some n) (err e) p = p.message

cmd_wait_cdp_internal-Wrote :
    (sdk : Sdk) (s : Bench) → IsPlain sdk → Wrote s (cmd_wait_cdp_internal sdk s)
unfolding cmd_wait_cdp_internal
cmd_wait_cdp_internal-Wrote sdk s p =
    printed-reply s.replies (probe_reply sdk s.current sdk.probing)
      (probe_reply-IsPlain sdk s.current sdk.probing p)

run_command-Wrote :
    (c : Command) (sdk : Sdk) (s : Bench) → IsPlain sdk → Wrote s (run_command c sdk s)
unfolding run_command
run_command-Wrote Command.setup = cmd_setup-Wrote
run_command-Wrote Command.trigger_cold = cmd_trigger_cold-Wrote
run_command-Wrote Command.snapshot = cmd_snapshot-Wrote
run_command-Wrote Command.trigger_resume = cmd_trigger_resume-Wrote
run_command-Wrote Command.wait_cdp_internal = cmd_wait_cdp_internal-Wrote
run_command-Wrote Command.teardown = cmd_teardown-Wrote

report-Wrote :
    (sdk : Sdk) (s : Bench) (r : Outcome × Bench)
    → IsPlain sdk
    → Wrote s r
    → printed (report sdk r).replies ≡ suc (printed s.replies)
report-Wrote sdk s (ok u, t) p h = h
report-Wrote sdk s (err e, t) p h =
    omega (arith, h, printed-reply t.replies (Reply.error sdk.message) p.message)

answer-replies :
    (cmd : Text) (c : Option Command) (sdk : Sdk) (s : Bench)
    → IsPlain sdk
    → has_char 10 cmd ≡ false
    → printed (answer cmd c sdk s).replies ≡ suc (printed s.replies)
unfolding answer
answer-replies cmd none sdk s p h = printed-reply s.replies (Reply.error cmd) h
answer-replies cmd (some c) sdk s p h =
    report-Wrote sdk s (run_command c sdk s) p (run_command-Wrote c sdk s p)

-- the lines that ask for an answer: those before `quit` that are not blank
abbrev pub asking : List (Text × Sdk) → ℕ
unfolding strip_by is_space
asking [] = 0
asking ((raw, sdk) ∷ lines) =
    let later = asking lines in
    if strip raw == quit then 0 else if strip raw == [] then later else suc later

-- Whatever the commands are and whatever the SDK returns or raises, where the texts that it puts into
-- replies (the messages and representations of its exceptions, the tunnels' addresses, the
-- specification of a sandbox) and the commands have no line feed: one line is printed for each line
-- that is read before `quit` and is not blank, and none for the others.
pub serve-replies :
    (lines : List (Text × Sdk)) (s : Bench)
    → All (λ line. IsPlain line.1 × (has_char 10 (strip line.0) ≡ false)) lines
    → printed (serve lines s).replies ≡ printed s.replies + asking lines
unfolding serve handle_line asking
serve-replies [] s p = omega arith
serve-replies ((raw, sdk) ∷ lines) s p = elim (Bool-cases (strip raw == quit)) [
  | inl stops ↦ rw stops (ap printed (terminate_current-replies sdk s) ∙ omega arith)
  | inr goes ↦ elim (Bool-cases (strip raw == [])) [
    | inl blank ↦ rw (goes, blank) (serve-replies lines s p.1)
    | inr asks ↦
        let cmd = strip raw in
        let c = lookup cmd handlers in
        rw (goes, asks)
          (omega (
            arith,
            serve-replies lines (answer cmd c sdk s) p.1,
            answer-replies cmd c sdk s p.0.0 p.0.1,
          ))
  ]
]
