-- ===== src/Connection/Tests.antt =====
-- Runs of a connection, and each theorem at a concrete input. Texts stand for JSON values.
use chrome_live.Base.{ℕ, String, ◌≡◌, refl, true, false, none, some, List, [], ◌∷◌, nat_key}
use chrome_live.Base.Exec.{web_socket_error, cdp_error, timeout_error, Result, ok, err}
use chrome_live.Dict.{lookup, insert}
use chrome_live.Connection.{
  Reply, Connection, fresh, send, begin_call, resume_call, take_reply, close,
}
use chrome_live.Connection.Linked.{
  Op, sent, called, woken, replied, run, IsLinked, fresh-IsLinked, run-IsLinked,
}
use chrome_live.Connection.Replies.{Waits}
use chrome_live.Connection.Answers.{answer, call_answered, send_answered}
use chrome_live.Connection.Endings.{call_timed_out, close_releases}

abbrev start : Connection String
start = fresh String

-- Another command, a write that fails, another call, and a reply to the first of them.
abbrev between : List (Op String)
between =
    sent none "Page.enable" "{}" (some "S")
    ∷ sent (some web_socket_error) "Network.enable" "{}" (some "S")
    ∷ called none "Page.getLayoutMetrics" "{}" (some "S")
    ∷ replied "{}" (record { id = some 2; error = none; result = some "r2" })
    ∷ woken false 1
    ∷ []

abbrev reply_1 : Reply String
reply_1 = record { id = some 1; error = none; result = some "r1" }

first_id : ◌≡◌ {A = Result ℕ} (begin_call none "m" "{}" none start).0 (ok 1)
unfolding begin_call
first_id = refl

run-IsLinked_example : IsLinked (run between start)
run-IsLinked_example = run-IsLinked between start fresh-IsLinked

call_answered_example :
    let (started, begun) = begin_call none "Page.captureScreenshot" "{}" (some "S") start in
    let (taken, c') = take_reply "{}" reply_1 (run between begun) in
    let (returned, c'') = resume_call false 1 c' in
    (started ≡ ok 1)
    × (taken ≡ none)
    × (returned ≡ some (answer "{}" reply_1))
    × (lookup 1 c''.awaited ≡ none)
call_answered_example =
    call_answered "Page.captureScreenshot" "{}" "{}" (some "S") between reply_1 false start
      fresh-IsLinked (tt, (tt, (tt, (λ e. cc, (λ e. refl, tt))))) refl

send_answered_example :
    let (started, c') = send none "Page.getFrameTree" "{}" (some "S") start in
    let (taken, c'') = take_reply "{}" reply_1 (run between c') in
    (started ≡ ok 1)
    × (taken ≡ some ("Page.getFrameTree", some "S", "r1"))
    × (take_reply "{}" reply_1 c'' ≡ (none, c''))
send_answered_example =
    send_answered "Page.getFrameTree" "{}" "{}" (some "S") between reply_1 start fresh-IsLinked
      (tt, (tt, (tt, (λ e. cc, (λ e. refl, tt))))) refl

abbrev one_call : Connection String
one_call = (begin_call none "Page.captureScreenshot" "{}" none start).1

one_call-Waits : Waits 1 (record { method = "Page.captureScreenshot"; future = 1 }) one_call
unfolding begin_call insert lookup run
one_call-Waits = record {
  linked = run-IsLinked (called none "Page.captureScreenshot" "{}" none ∷ []) start fresh-IsLinked;
  listed = refl;
  own_future = refl;
  unresolved = refl;
}

call_timed_out_example :
    let (returned, c') = resume_call true 1 one_call in
    (returned ≡ some (err timeout_error)) × (take_reply "{}" reply_1 c' ≡ (none, c'))
call_timed_out_example = call_timed_out 1 _ "{}" reply_1 one_call one_call-Waits refl

close_releases_example :
    ((resume_call false 1 (close one_call)).0 ≡ some (err cdp_error))
    × ((close one_call).awaited ≡ [])
    × ((close one_call).dispatched ≡ [])
close_releases_example = close_releases 1 _ false one_call one_call-Waits
