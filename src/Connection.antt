-- ===== src/Connection.antt =====
-- browser-trace/cdp.py: the CDP link. A command's JSON stays abstract (`J`), a frame is the record
-- that is dumped to text. The web socket is not part of the source: whether a write to it raises is
-- an argument of what writes. A `call` is two steps, up to its wait and from the wake of it on, so
-- that replies, other commands and the close of the link can come in between.
pub mod Linked
pub mod Replies
pub mod Answers
pub mod Endings
mod Tests
use chrome_live.Base.{
  ℕ, ◌+◌, String, Option, none, some, List, ◌∷◌, ◌++◌, [], Bool, nat_key, get_or, if◌then◌else◌,
}
use chrome_live.Base.Exec.{Exception, cdp_error, timeout_error, Result, ok, err}
use chrome_live.Dict.{Dict, lookup, insert, erase, modify}

-- `_Dispatched`
pub record Dispatched : Type 0 where
  pub method : String
  pub session_id : Option String

-- `_Awaited`; a future is named by the id of the message that it was made for.
pub record Awaited : Type 0 where
  pub method : String
  pub future : ℕ

-- The states of an `asyncio.Future`.
pub data Future (J : Type 0) : Type 0 where
  pending cancelled : Future J
  result : J → Future J
  exception : Exception → Future J

-- The message that `_frame` dumps.
pub record Frame (J : Type 0) : Type 0 where
  pub id : ℕ
  pub method : String
  pub params : J
  pub session_id : Option String

-- The fields of `Connection`, the futures that its calls have made, and what it wrote.
pub record Connection (J : Type 0) : Type 0 where
  pub msg_id : ℕ
  pub dispatched : Dict ℕ Dispatched
  pub awaited : Dict ℕ Awaited
  pub futures : Dict ℕ (Future J)
  pub sent : List (Frame J)

-- The parts of a reply that `take_reply` reads; `none` is a missing key.
pub record Reply (J : Type 0) : Type 0 where
  pub id : Option ℕ
  pub error : Option J
  pub result : Option J

abbrev pub fresh : (J : Type 0) → Connection J
fresh J = record { msg_id = 0; dispatched = []; awaited = []; futures = []; sent = [] }

abbrev pub or_raise : Option Exception → ℕ → Result ℕ
or_raise none id = ok id
or_raise (some e) id = err e

-- `dict.pop(msg_id, None)`, where `None` is in no table
unfoldable pub pop_table : {A : Type 0} → Option ℕ → Dict ℕ A → Option A
pop_table none d = none
pop_table (some id) d = lookup id d

unfoldable pub erase_table : {A : Type 0} → Option ℕ → Dict ℕ A → Dict ℕ A
erase_table none d = d
erase_table (some id) d = erase id d

module _ {J : Type 0} where
  -- `future.set_result` or `future.set_exception` where `not future.done()`
  unfoldable pub complete : Future J → Future J → Future J
  complete outcome pending = outcome
  complete outcome done = done

  -- `_frame`, for the connection with the new id
  unfoldable pub frame : String → J → Option String → Connection J → Frame J × Connection J
  frame method params session_id c =
      let id = c.msg_id + 1 in
      (
        record { id = id; method = method; params = params; session_id = session_id },
        record c { msg_id = id },
      )

  -- `await self._ws.send(frame)`; `some e` is a write that raises
  unfoldable pub write : Option Exception → Frame J → Connection J → Option Exception × Connection J
  write none f c = (none, record c { sent = c.sent ++ f ∷ [] })
  write (some e) f c = (some e, c)

  unfoldable pub send :
      Option Exception → String → J → Option String → Connection J → Result ℕ × Connection J
  unfolding frame write
  send fault method params session_id c =
      let (f, c') = frame method params session_id c in
      let listed : Connection J = record c' {
        dispatched =
            insert f.id (record { method = method; session_id = session_id }) c'.dispatched;
      } in
      let (raised, c'') = write fault f listed in (or_raise raised f.id, c'')

  -- the `finally` of `call`
  unfoldable pub forget_call : ℕ → Connection J → Connection J
  forget_call id c = record c { awaited = erase id c.awaited }

  -- `forget_call` where the write raised
  unfoldable pub unless_written : Option Exception → ℕ → Connection J → Connection J
  unfolding forget_call
  unless_written none id c = c
  unless_written (some e) id c = forget_call id c

  -- `call` up to its wait
  unfoldable pub begin_call :
      Option Exception → String → J → Option String → Connection J → Result ℕ × Connection J
  unfolding frame write unless_written
  begin_call fault method params session_id c =
      let (f, c') = frame method params session_id c in
      let listed : Connection J = record c' {
        awaited = insert f.id (record { method = method; future = f.id }) c'.awaited;
        futures = insert f.id pending c'.futures;
      } in
      let (raised, c'') = write fault f listed in
      (or_raise raised f.id, unless_written raised f.id c'')

  -- What `wait_for` does when the call is woken, `none` while it still waits. `timed_out` tells
  -- whether the timer has run before: then `wait_for` raises a `TimeoutError`, also where the future
  -- is done.
  unfoldable pub wake :
      Bool → ℕ → Option (Future J) → Connection J → Option (Result J) × Connection J
  unfolding forget_call
  wake timed_out id (some (result j)) c =
      (some (if timed_out then err timeout_error else ok j), forget_call id c)
  wake timed_out id (some (exception e)) c =
      (some (err (if timed_out then timeout_error else e)), forget_call id c)
  wake timed_out id (some pending) c =
      if timed_out
      then (
        some (err timeout_error),
        forget_call id (record c { futures = insert id cancelled c.futures }),
      )
      else (none, c)
  wake timed_out id _ c = (none, c)

  -- `call` from its wait on, for the call of a message id
  unfoldable pub resume_call : Bool → ℕ → Connection J → Option (Result J) × Connection J
  unfolding wake
  resume_call timed_out id c = wake timed_out id (lookup id c.futures) c

  -- the outcome that a reply has for the call that awaits it; `empty` is `{}`
  unfoldable pub outcome : J → Reply J → Future J
  outcome empty r = elim r.error [
    | none ↦ result (get_or r.result empty)
    | some e ↦ exception cdp_error
  ]

  unfoldable pub take_dispatched :
      J
      → Reply J
      → Option Dispatched
      → Connection J
      → Option (String × Option String × J) × Connection J
  unfolding erase_table
  take_dispatched empty r none c = (none, c)
  take_dispatched empty r (some d) c = (
    some (d.method, d.session_id, get_or r.result empty),
    record c { dispatched = erase_table r.id c.dispatched },
  )

  unfoldable pub take_awaited :
      J
      → Reply J
      → Option Awaited
      → Connection J
      → Option (String × Option String × J) × Connection J
  unfolding pop_table erase_table take_dispatched outcome complete
  take_awaited empty r (some a) c = (
    none,
    record c {
      awaited = erase_table r.id c.awaited;
      futures = modify a.future (complete (outcome empty r)) c.futures;
    },
  )
  take_awaited empty r none c = take_dispatched empty r (pop_table r.id c.dispatched) c

  unfoldable pub take_reply :
      J → Reply J → Connection J → Option (String × Option String × J) × Connection J
  unfolding take_awaited pop_table
  take_reply empty r c = take_awaited empty r (pop_table r.id c.awaited) c

  -- the loop of `close` over the calls that still wait
  unfoldable pub abandon : Dict ℕ Awaited → Dict ℕ (Future J) → Dict ℕ (Future J)
  unfolding complete
  abandon [] futures = futures
  abandon ((id, a) ∷ rest) futures =
      abandon rest (modify a.future (complete (exception cdp_error)) futures)

  unfoldable pub close : Connection J → Connection J
  unfolding abandon
  close c = record c { awaited = []; dispatched = []; futures = abandon c.awaited c.futures }
