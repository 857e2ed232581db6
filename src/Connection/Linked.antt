-- ===== src/Connection/Linked.antt =====
-- The tables of a connection under any sequence of its operations.
use chrome_live.Base.{
  ℕ, ◌+◌, ◌≤◌, String, ◌≡◌, true, false, Option, none, some, List, [], ◌∷◌, arith, Bool, nat_key,
  Option-cases, inl, inr,
}
use chrome_live.Base.Exec.{Exception}
use chrome_live.Dict.{Dict, lookup, insert, erase, modify}
use chrome_live.Dict.Laws.{lookup-insert, lookup-erase}
use chrome_live.Connection.{
  Dispatched, Awaited, Future, pending, cancelled, Reply, Connection, fresh, send, forget_call,
  begin_call, wake, resume_call, outcome, pop_table, take_dispatched, take_awaited, take_reply,
  close, complete, result, exception,
}

-- An operation on the connection, by any of the coroutines that share it.
pub data Op (J : Type 0) : Type 0 where
  sent called : Option Exception → String → J → Option String → Op J
  woken : Bool → ℕ → Op J
  replied : J → Reply J → Op J
  dropped : Op J

module _ {J : Type 0} where
  unfoldable pub step : Op J → Connection J → Connection J
  step (sent fault method params sid) c = (send fault method params sid c).1
  step (called fault method params sid) c = (begin_call fault method params sid c).1
  step (woken timed_out id) c = (resume_call timed_out id c).1
  step (replied empty r) c = (take_reply empty r c).1
  step dropped c = close c

  unfoldable pub run : List (Op J) → Connection J → Connection J
  unfolding step
  run [] c = c
  run (op ∷ ops) c = run ops (step op c)

  -- No id is above the counter, no id is in both tables, and a call in the table waits for the
  -- future that was made for it.
  pub record IsLinked (c : Connection J) : Type 0 where
    pub dispatched_le : (i : ℕ) (d : Dispatched) → lookup i c.dispatched ≡ some d → i ≤ c.msg_id
    pub awaited_le : (i : ℕ) (a : Awaited) → lookup i c.awaited ≡ some a → i ≤ c.msg_id
    pub apart : (i : ℕ) (a : Awaited) → lookup i c.awaited ≡ some a → lookup i c.dispatched ≡ none
    pub own : (i : ℕ) (a : Awaited) → lookup i c.awaited ≡ some a → a.future ≡ i

  pub fresh-IsLinked : IsLinked (fresh J)
  unfolding lookup
  fresh-IsLinked = record {
    dispatched_le = λ i d p. cc;
    awaited_le = λ i a p. cc;
    apart = λ i a p. cc;
    own = λ i a p. cc;
  }

  pub send-IsLinked :
      (fault : Option Exception) (method : String) (params : J) (sid : Option String)
      (c : Connection J)
      → IsLinked c
      → IsLinked (send fault method params sid c).1
  unfolding send
  send-IsLinked fault method params sid c h = record {
    dispatched_le = λ i d p. ground (
      arith,
      lookup-insert (c.msg_id + 1) i (record { method = method; session_id = sid }) c.dispatched,
      h.dispatched_le i d,
    );
    awaited_le = λ i a p. ground (arith, h.awaited_le i a);
    apart = λ i a p. ground (
      arith,
      lookup-insert (c.msg_id + 1) i (record { method = method; session_id = sid }) c.dispatched,
      h.apart i a,
      h.awaited_le i a,
    );
    own = λ i a p. ground (arith, h.own i a);
  }

  pub begin_call-IsLinked :
      (fault : Option Exception) (method : String) (params : J) (sid : Option String)
      (c : Connection J)
      → IsLinked c
      → IsLinked (begin_call fault method params sid c).1
  unfolding begin_call
  begin_call-IsLinked fault method params sid c h =
      let id = c.msg_id + 1 in
      let a : Awaited = record { method = method; future = id } in
      let listed = λ (i : ℕ). lookup-insert id i a c.awaited in
      let dropped = λ (i : ℕ). lookup-erase id i (insert id a c.awaited) in
      record {
        dispatched_le = λ i d p. ground (arith, h.dispatched_le i d);
        awaited_le = λ i b p. ground (arith, listed i, dropped i, h.awaited_le i b);
        apart = λ i b p. elim (Option-cases (lookup i c.dispatched)) [
          | inl free ↦ ground arith
          | inr (d, e) ↦ ground (arith, listed i, dropped i, h.apart i b, h.dispatched_le i d)
        ];
        own = λ i b p. ground (arith, listed i, dropped i, h.own i b);
      }

  forget_call-IsLinked :
      (id : ℕ) (f : Dict ℕ (Future J)) (c : Connection J)
      → IsLinked c
      → IsLinked (forget_call id (record c { futures = f }))
  unfolding forget_call
  forget_call-IsLinked id f c h = record {
    dispatched_le = λ i d p. h.dispatched_le i d p;
    awaited_le = λ i a p. ground (arith, lookup-erase id i c.awaited, h.awaited_le i a);
    apart = λ i a p. ground (arith, lookup-erase id i c.awaited, h.apart i a);
    own = λ i a p. ground (arith, lookup-erase id i c.awaited, h.own i a);
  }

  wake-IsLinked :
      (timed_out : Bool) (id : ℕ) (f : Option (Future J)) (c : Connection J)
      → IsLinked c
      → IsLinked (wake timed_out id f c).1
  unfolding wake
  wake-IsLinked timed_out id none c h = h
  wake-IsLinked timed_out id (some cancelled) c h = h
  wake-IsLinked timed_out id (some (result j)) c h = forget_call-IsLinked id c.futures c h
  wake-IsLinked timed_out id (some (exception e)) c h = forget_call-IsLinked id c.futures c h
  wake-IsLinked true id (some pending) c h =
      forget_call-IsLinked id (insert id cancelled c.futures) c h
  wake-IsLinked false id (some pending) c h = h

  drop_dispatched-IsLinked :
      (id : ℕ) (c : Connection J)
      → IsLinked c
      → IsLinked (record c { dispatched = erase id c.dispatched })
  drop_dispatched-IsLinked id c h = record {
    dispatched_le = λ i d p. ground (arith, lookup-erase id i c.dispatched, h.dispatched_le i d);
    awaited_le = λ i a p. h.awaited_le i a p;
    apart = λ i a p. ground (arith, lookup-erase id i c.dispatched, h.apart i a);
    own = λ i a p. h.own i a p;
  }

  take_dispatched-IsLinked :
      (empty : J) (id : ℕ) (r : Reply J) (found : Option Dispatched) (c : Connection J)
      → r.id ≡ some id
      → IsLinked c
      → IsLinked (take_dispatched empty r found c).1
  unfolding take_dispatched
  take_dispatched-IsLinked empty id r none c e h = h
  take_dispatched-IsLinked empty id r (some d) c e h = rw e (drop_dispatched-IsLinked id c h)

  take_awaited-IsLinked :
      (empty : J) (id : ℕ) (r : Reply J) (found : Option Awaited) (c : Connection J)
      → r.id ≡ some id
      → IsLinked c
      → IsLinked (take_awaited empty r found c).1
  unfolding take_awaited
  take_awaited-IsLinked empty id r none c e h =
      take_dispatched-IsLinked empty id r (pop_table r.id c.dispatched) c e h
  take_awaited-IsLinked empty id r (some a) c e h = rw e (
      unfold forget_call in
      forget_call-IsLinked id (modify a.future (complete (outcome empty r)) c.futures) c h)

  -- A reply without an id is in no table.
  pub take_reply_no_id :
      (empty : J) (r : Reply J) (c : Connection J) → r.id ≡ none → take_reply empty r c ≡ (none, c)
  unfolding take_reply
  take_reply_no_id empty r c e = ground arith

  take_reply-IsLinked :
      (empty : J) (r : Reply J) (c : Connection J) → IsLinked c → IsLinked (take_reply empty r c).1
  unfolding take_reply
  take_reply-IsLinked empty r c h = elim (Option-cases r.id) [
    | inl no_id ↦ rw (take_reply_no_id empty r c no_id) h
    | inr (id, e) ↦ take_awaited-IsLinked empty id r (pop_table r.id c.awaited) c e h
  ]

  pub close-IsLinked : (c : Connection J) → IsLinked c → IsLinked (close c)
  unfolding close lookup
  close-IsLinked c h = record {
    dispatched_le = λ i d p. cc;
    awaited_le = λ i a p. cc;
    apart = λ i a p. cc;
    own = λ i a p. cc;
  }

  pub step-IsLinked : (op : Op J) (c : Connection J) → IsLinked c → IsLinked (step op c)
  unfolding step resume_call
  step-IsLinked (sent fault method params sid) c h = send-IsLinked fault method params sid c h
  step-IsLinked (called fault method params sid) c h =
      begin_call-IsLinked fault method params sid c h
  step-IsLinked (woken timed_out id) c h = wake-IsLinked timed_out id (lookup id c.futures) c h
  step-IsLinked (replied empty r) c h = take_reply-IsLinked empty r c h
  step-IsLinked dropped c h = close-IsLinked c h

  -- Whatever the coroutines do with a connection whose tables are linked, in any order, they stay
  -- linked: no id is above the counter, so the next message has an id that is in no table; no id
  -- awaits two kinds of reply; and each waiting call waits for its own future.
  pub run-IsLinked : (ops : List (Op J)) (c : Connection J) → IsLinked c → IsLinked (run ops c)
  unfolding run
  run-IsLinked [] c h = h
  run-IsLinked (op ∷ ops) c h = run-IsLinked ops (step op c) (step-IsLinked op c h)
