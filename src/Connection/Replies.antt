-- ===== src/Connection/Replies.antt =====
-- Which command a reply belongs to, whatever happens on the connection in between.
use chrome_live.Base.{
  ℕ, ◌+◌, ◌≡◌, ◌≢◌, refl, false, Option, none, some, List, [], ◌∷◌, arith, Bool, nat_key,
  Option-cases, inl, inr, All,
}
use chrome_live.Dict.{Dict, lookup, insert}
use chrome_live.Dict.Laws.{lookup-insert, lookup-erase, lookup-modify}
use chrome_live.Connection.{
  Dispatched, Awaited, Future, pending, cancelled, Reply, Connection, send, forget_call, begin_call,
  wake, resume_call, outcome, pop_table, erase_table, take_dispatched, take_awaited, take_reply,
  complete,
}
use chrome_live.Connection.Linked.{
  Op, sent, called, woken, replied, dropped, step, run, IsLinked, step-IsLinked,
}

erase_table-ne :
    {A : Type 0} (id : ℕ) (o : Option ℕ) (t : Dict ℕ A)
    → o ≢ some id
    → lookup id (erase_table o t) ≡ lookup id t
unfolding erase_table
erase_table-ne id none t h = refl
erase_table-ne id (some j) t h = ground (arith, lookup-erase j id t)

module _ {J : Type 0} where
  -- The link stays up, and no reply to the message arrives; a call for it may be woken, but not by
  -- its timeout.
  abbrev pub LeavesAlone : ℕ → Op J → Type 0
  LeavesAlone id (replied empty r) = r.id ≢ some id
  LeavesAlone id (woken timed_out j) = j ≡ id → timed_out ≡ false
  LeavesAlone id dropped = ⊥
  LeavesAlone id _ = Unit

  -- A call that waits for the reply to its message.
  pub record Waits (id : ℕ) (a : Awaited) (c : Connection J) : Type 0 where
    pub linked : IsLinked c
    pub listed : lookup id c.awaited ≡ some a
    pub own_future : a.future ≡ id
    pub unresolved : lookup id c.futures ≡ some pending

  -- A `send` whose reply has not come.
  pub record Outstanding (id : ℕ) (d : Dispatched) (c : Connection J) : Type 0 where
    pub linked : IsLinked c
    pub listed : lookup id c.dispatched ≡ some d

  wake-Waits :
      (timed_out : Bool) (j id : ℕ) (a : Awaited) (f : Option (Future J)) (c : Connection J)
      → lookup j c.futures ≡ f
      → (j ≡ id → timed_out ≡ false)
      → Waits id a c
      → IsLinked (wake timed_out j f c).1
      → Waits id a (wake timed_out j f c).1
  unfolding wake forget_call
  wake-Waits timed_out j id a f c e alone w l = record {
    linked = l;
    listed = ground (arith, w.listed, w.unresolved, lookup-erase j id c.awaited);
    own_future = w.own_future;
    unresolved = ground (arith, w.unresolved, lookup-insert j id cancelled c.futures);
  }

  dispatched-Waits :
      (empty : J) (r : Reply J) (id : ℕ) (a : Awaited) (found : Option Dispatched)
      (c : Connection J)
      → Waits id a c
      → IsLinked (take_dispatched empty r found c).1
      → Waits id a (take_dispatched empty r found c).1
  unfolding take_dispatched
  dispatched-Waits empty r id a none c w l = w
  dispatched-Waits empty r id a (some d) c w l = record {
    linked = l;
    listed = w.listed;
    own_future = w.own_future;
    unresolved = w.unresolved;
  }

  -- The future of a call that is answered is not the future of another call.
  popped_elsewhere :
      (id : ℕ) (o : Option ℕ) (b : Awaited) (c : Connection J)
      → IsLinked c
      → pop_table o c.awaited ≡ some b
      → o ≢ some id
      → b.future ≢ id
  unfolding pop_table
  popped_elsewhere id none b c h e ne = cc
  popped_elsewhere id (some j) b c h e ne = λ same. ne (ground (arith, h.own j b e))

  taken-Waits :
      (empty : J) (r : Reply J) (id : ℕ) (a : Awaited) (found : Option Awaited) (c : Connection J)
      → pop_table r.id c.awaited ≡ found
      → r.id ≢ some id
      → Waits id a c
      → IsLinked (take_awaited empty r found c).1
      → Waits id a (take_awaited empty r found c).1
  unfolding take_awaited
  taken-Waits empty r id a none c e ne w l =
      dispatched-Waits empty r id a (pop_table r.id c.dispatched) c w l
  taken-Waits empty r id a (some b) c e ne w l = record {
    linked = l;
    listed = rw (erase_table-ne id r.id c.awaited ne) w.listed;
    own_future = w.own_future;
    unresolved = ground (
      arith,
      w.unresolved,
      popped_elsewhere id r.id b c w.linked e ne,
      lookup-modify b.future id (complete (outcome empty r)) c.futures,
    );
  }

  pub step-Waits :
      (op : Op J) (id : ℕ) (a : Awaited) (c : Connection J)
      → LeavesAlone id op
      → Waits id a c
      → Waits id a (step op c)
  unfolding step
  step-Waits (sent fault method params sid) id a c q w = record {
    linked = step-IsLinked (sent fault method params sid) c w.linked;
    listed = unfold send in ground (arith, w.listed);
    own_future = w.own_future;
    unresolved = unfold send in ground (arith, w.unresolved);
  }
  step-Waits (called fault method params sid) id a c q w =
      let new = c.msg_id + 1 in
      let b : Awaited = record { method = method; future = new } in
      record {
        linked = step-IsLinked (called fault method params sid) c w.linked;
        listed =
            unfold begin_call in
            ground (
              arith,
              w.listed,
              w.linked.awaited_le id a w.listed,
              lookup-insert new id b c.awaited,
              lookup-erase new id (insert new b c.awaited),
            );
        own_future = w.own_future;
        unresolved =
            unfold begin_call in
            ground (
              arith,
              w.unresolved,
              w.linked.awaited_le id a w.listed,
              lookup-insert new id pending c.futures,
            );
      }
  step-Waits (woken timed_out j) id a c q w =
      unfold resume_call in
      wake-Waits timed_out j id a (lookup j c.futures) c refl q w
        (step-IsLinked (woken timed_out j) c w.linked)
  step-Waits (replied empty r) id a c q w =
      unfold take_reply in
      taken-Waits empty r id a (pop_table r.id c.awaited) c refl q w
        (step-IsLinked (replied empty r) c w.linked)
  step-Waits dropped id a c q w = absurd q

  pub run-Waits :
      (ops : List (Op J)) (id : ℕ) (a : Awaited) (c : Connection J)
      → All (LeavesAlone id) ops
      → Waits id a c
      → Waits id a (run ops c)
  unfolding run
  run-Waits [] id a c q w = w
  run-Waits (op ∷ ops) id a c q w = run-Waits ops id a (step op c) q.1 (step-Waits op id a c q.0 w)

  -- A message in one table is not in the other.
  pub not_awaited :
      (id : ℕ) (d : Dispatched) (c : Connection J)
      → IsLinked c
      → lookup id c.dispatched ≡ some d
      → lookup id c.awaited ≡ none
  not_awaited id d c h e = elim (Option-cases (lookup id c.awaited)) [
    | inl free ↦ free
    | inr (a, listed) ↦ absurd (ground (arith, h.apart id a))
  ]

  wake-dispatched :
      (timed_out : Bool) (j : ℕ) (f : Option (Future J)) (c : Connection J)
      → (wake timed_out j f c).1.dispatched ≡ c.dispatched
  unfolding wake forget_call
  wake-dispatched timed_out j f c = ground arith

  taken-Outstanding :
      (empty : J) (r : Reply J) (id : ℕ) (d : Dispatched) (found : Option Awaited)
      (c : Connection J)
      → r.id ≢ some id
      → lookup id c.dispatched ≡ some d
      → lookup id (take_awaited empty r found c).1.dispatched ≡ some d
  unfolding take_awaited take_dispatched
  taken-Outstanding empty r id d found c ne e =
      ground (arith, erase_table-ne id r.id c.dispatched ne)

  step-Outstanding :
      (op : Op J) (id : ℕ) (d : Dispatched) (c : Connection J)
      → LeavesAlone id op
      → Outstanding id d c
      → lookup id (step op c).dispatched ≡ some d
  unfolding step
  step-Outstanding (sent fault method params sid) id d c q o =
      unfold send in
      ground (
        arith,
        o.listed,
        o.linked.dispatched_le id d o.listed,
        lookup-insert (c.msg_id + 1) id (record { method = method; session_id = sid }) c.dispatched,
      )
  step-Outstanding (called fault method params sid) id d c q o =
      unfold begin_call in ground (arith, o.listed)
  step-Outstanding (woken timed_out j) id d c q o =
      unfold resume_call in rw (wake-dispatched timed_out j (lookup j c.futures) c) o.listed
  step-Outstanding (replied empty r) id d c q o =
      unfold take_reply in taken-Outstanding empty r id d (pop_table r.id c.awaited) c q o.listed
  step-Outstanding dropped id d c q o = absurd q

  pub run-Outstanding :
      (ops : List (Op J)) (id : ℕ) (d : Dispatched) (c : Connection J)
      → All (LeavesAlone id) ops
      → Outstanding id d c
      → Outstanding id d (run ops c)
  unfolding run
  run-Outstanding [] id d c q o = o
  run-Outstanding (op ∷ ops) id d c q o =
      run-Outstanding ops id d (step op c) q.1
        (record { linked = step-IsLinked op c o.linked; listed = step-Outstanding op id d c q.0 o })
