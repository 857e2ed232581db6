-- ===== src/Connection/Answers.antt =====
-- The promises of `send`, `call` and `close` to their callers.
use chrome_live.Base.{
  if◌then◌else◌, ℕ, ◌+◌, String, ◌≡◌, refl, Option, none, some, List, arith, Bool, nat_key, All,
  get_or,
}
use chrome_live.Base.Exec.{cdp_error, timeout_error, Result, ok, err}
use chrome_live.Dict.{lookup, erase, modify}
use chrome_live.Dict.Laws.{lookup-erase, lookup-modify, lookup-erase_self, lookup-insert_self}
use chrome_live.Connection.{
  Dispatched, Awaited, pending, Reply, Connection, send, begin_call, resume_call, outcome,
  take_reply, complete,
}
use chrome_live.Connection.Linked.{Op, run, IsLinked, begin_call-IsLinked, send-IsLinked}
use chrome_live.Connection.Replies.{
  LeavesAlone, Waits, Outstanding, run-Waits, run-Outstanding, not_awaited,
}

module _ {J : Type 0} where
  -- what a reply says to the call that awaits it
  abbrev pub answer : J → Reply J → Result J
  answer empty r = elim r.error [ none ↦ ok (get_or r.result empty) | some e ↦ err cdp_error ]

  begun-Waits :
      (method : String) (params : J) (sid : Option String) (c : Connection J)
      → IsLinked c
      → Waits
          (c.msg_id + 1)
          (record { method = method; future = c.msg_id + 1 })
          (begin_call none method params sid c).1
  unfolding begin_call
  begun-Waits method params sid c h = record {
    linked = begin_call-IsLinked none method params sid c h;
    listed = lookup-insert_self (c.msg_id + 1) _ c.awaited;
    own_future = refl;
    unresolved = lookup-insert_self (c.msg_id + 1) pending c.futures;
  }

  take_reply_awaited :
      (empty : J) (r : Reply J) (id : ℕ) (a : Awaited) (c : Connection J)
      → r.id ≡ some id
      → lookup id c.awaited ≡ some a
      → take_reply empty r c ≡ (
        none,
        record c {
          awaited = erase id c.awaited;
          futures = modify a.future (complete (outcome empty r)) c.futures;
        },
      )
  unfolding take_reply
  take_reply_awaited empty r id a c e listed = ground arith

  -- a call whose future has the outcome of a reply
  resumed :
      (empty : J) (r : Reply J) (id : ℕ) (timed_out : Bool) (c : Connection J)
      → lookup id c.futures ≡ some (outcome empty r)
      → (resume_call timed_out id c).0
        ≡ some (if timed_out then err timeout_error else answer empty r)
  unfolding resume_call outcome
  resumed empty r id timed_out c e = ground arith

  forgotten :
      (id : ℕ) (timed_out : Bool) (c : Connection J)
      → lookup id c.awaited ≡ none
      → lookup id (resume_call timed_out id c).1.awaited ≡ none
  unfolding resume_call
  forgotten id timed_out c e = ground (arith, lookup-erase id id c.awaited)

  -- A reply to a waiting call resolves the call's future.
  answered :
      (empty : J) (r : Reply J) (id : ℕ) (a : Awaited) (timed_out : Bool) (c : Connection J)
      → r.id ≡ some id
      → Waits id a c
      → let (taken, c') = take_reply empty r c in
        let (returned, c'') = resume_call timed_out id c' in
        (taken ≡ none)
        × (returned ≡ some (if timed_out then err timeout_error else answer empty r))
        × (lookup id c''.awaited ≡ none)
  answered empty r id a timed_out c e w = rw (take_reply_awaited empty r id a c e w.listed) (
    refl,
    resumed empty r id timed_out _ (
        unfold complete in
        ground (
          arith,
          w.own_future,
          w.unresolved,
          lookup-modify a.future id (complete (outcome empty r)) c.futures,
        )),
    forgotten id timed_out _ (lookup-erase_self id c.awaited),
  )

  -- On a connection whose tables are linked, whatever other operations, in any order, run between
  -- a `call` and the reply to its message, while the link stays up and the call is not woken by its
  -- timer: the reply is handed to nobody else, and when the call is woken then, it returns the
  -- reply's result (an empty object if it has none) or, if the reply is an error, raises `CdpError`,
  -- unless its timer has run by then, which raises `TimeoutError`; and the call is listed no more.
  pub call_answered :
      (method : String) (params empty : J) (sid : Option String) (ops : List (Op J)) (r : Reply J)
      (timed_out : Bool) (c : Connection J)
      → IsLinked c
      → All (LeavesAlone (c.msg_id + 1)) ops
      → r.id ≡ some (c.msg_id + 1)
      → let (started, begun) = begin_call none method params sid c in
        let (taken, c') = take_reply empty r (run ops begun) in
        let (returned, c'') = resume_call timed_out (c.msg_id + 1) c' in
        (started ≡ ok (c.msg_id + 1))
        × (taken ≡ none)
        × (returned ≡ some (if timed_out then err timeout_error else answer empty r))
        × (lookup (c.msg_id + 1) c''.awaited ≡ none)
  call_answered method params empty sid ops r timed_out c h q e =
      let id = c.msg_id + 1 in
      let begun = (begin_call none method params sid c).1 in
      let a : Awaited = record { method = method; future = id } in
      let (taken, returned, gone) =
        answered empty r id a timed_out (run ops begun) e
          (run-Waits ops id a begun q (begun-Waits method params sid c h)) in
      (unfold begin_call in refl, taken, returned, gone)

  take_reply_dispatched :
      (empty : J) (r : Reply J) (id : ℕ) (d : Dispatched) (c : Connection J)
      → r.id ≡ some id
      → lookup id c.awaited ≡ none
      → lookup id c.dispatched ≡ some d
      → take_reply empty r c ≡ (
        some (d.method, d.session_id, get_or r.result empty),
        record c { dispatched = erase id c.dispatched },
      )
  unfolding take_reply
  take_reply_dispatched empty r id d c e free listed = ground arith

  pub take_reply_unknown :
      (empty : J) (r : Reply J) (id : ℕ) (c : Connection J)
      → r.id ≡ some id
      → lookup id c.awaited ≡ none
      → lookup id c.dispatched ≡ none
      → take_reply empty r c ≡ (none, c)
  unfolding take_reply
  take_reply_unknown empty r id c e free unlisted = ground arith

  sent-Outstanding :
      (method : String) (params : J) (sid : Option String) (c : Connection J)
      → IsLinked c
      → Outstanding
          (c.msg_id + 1)
          (record { method = method; session_id = sid })
          (send none method params sid c).1
  unfolding send
  sent-Outstanding method params sid c h = record {
    linked = send-IsLinked none method params sid c h;
    listed = lookup-insert_self (c.msg_id + 1) _ c.dispatched;
  }

  -- On a connection whose tables are linked, whatever other operations, in any order, run between
  -- a `send` and the reply to its message, while the link stays up: the reply is handed back with
  -- the method and the session of that `send`, and a second reply to the message is ignored and
  -- changes nothing.
  pub send_answered :
      (method : String) (params empty : J) (sid : Option String) (ops : List (Op J)) (r : Reply J)
      (c : Connection J)
      → IsLinked c
      → All (LeavesAlone (c.msg_id + 1)) ops
      → r.id ≡ some (c.msg_id + 1)
      → let (started, c') = send none method params sid c in
        let (taken, c'') = take_reply empty r (run ops c') in
        (started ≡ ok (c.msg_id + 1))
        × (taken ≡ some (method, sid, get_or r.result empty))
        × (take_reply empty r c'' ≡ (none, c''))
  send_answered method params empty sid ops r c h q e =
      let id = c.msg_id + 1 in
      let c' = (send none method params sid c).1 in
      let d : Dispatched = record { method = method; session_id = sid } in
      let o = run-Outstanding ops id d c' q (sent-Outstanding method params sid c h) in
      let free = not_awaited id d (run ops c') o.linked o.listed in
      rw (take_reply_dispatched empty r id d (run ops c') e free o.listed) (
        unfold send in refl,
        refl,
        take_reply_unknown empty r id _ e free (lookup-erase_self id (run ops c').dispatched),
      )
