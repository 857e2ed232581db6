-- ===== src/Connection/Endings.antt =====
-- Calls that get no reply: a timeout, and the close of the link.
use chrome_live.Base.{
  if◌then◌else◌, ℕ, ◌≡◌, refl, true, none, some, [], ◌∷◌, arith, Bool, nat_key, ◌==◌, Bool-cases,
  inl, inr,
}
use chrome_live.Base.Exec.{Exception, cdp_error, timeout_error, err}
use chrome_live.Dict.{Dict, lookup, modify}
use chrome_live.Dict.Laws.{lookup-modify, lookup-erase_self}
use chrome_live.Connection.{
  Awaited, Future, pending, Reply, Connection, resume_call, take_reply, abandon, close, complete,
  exception,
}
use chrome_live.Connection.Replies.{Waits}
use chrome_live.Connection.Answers.{take_reply_unknown}

module _ {J : Type 0} where
  -- A waiting call whose time is up raises `TimeoutError`, and a reply to its message that comes
  -- later is ignored and changes nothing.
  pub call_timed_out :
      (id : ℕ) (a : Awaited) (empty : J) (r : Reply J) (c : Connection J)
      → Waits id a c
      → r.id ≡ some id
      → let (returned, c') = resume_call true id c in
        (returned ≡ some (err timeout_error)) × (take_reply empty r c' ≡ (none, c'))
  unfolding resume_call
  call_timed_out id a empty r c w e = rw w.unresolved (
    refl,
    take_reply_unknown empty r id _ e (lookup-erase_self id c.awaited)
        (w.linked.apart id a w.listed),
  )

  kept_by_abandon :
      (calls : Dict ℕ Awaited) (futures : Dict ℕ (Future J)) (id : ℕ) (e : Exception)
      → lookup id futures ≡ some (exception e)
      → lookup id (abandon calls futures) ≡ some (exception e)
  unfolding abandon
  kept_by_abandon [] futures id e h = h
  kept_by_abandon ((i, a) ∷ calls) futures id e h =
      kept_by_abandon calls (modify a.future (complete (exception cdp_error)) futures) id e
        (ground (arith, lookup-modify a.future id (complete (exception cdp_error)) futures))

  abandoned :
      (calls : Dict ℕ Awaited) (futures : Dict ℕ (Future J)) (id : ℕ) (a : Awaited)
      → lookup id calls ≡ some a
      → a.future ≡ id
      → lookup id futures ≡ some pending
      → lookup id (abandon calls futures) ≡ some (exception cdp_error)
  unfolding abandon lookup
  abandoned [] futures id a listed own h = cc
  abandoned ((i, b) ∷ calls) futures id a listed own h =
      let change = lookup-modify b.future id (complete (exception cdp_error)) futures in
      elim (Bool-cases (b.future == id)) [
        | inl here ↦ kept_by_abandon calls _ id cdp_error (ground arith)
        | inr there ↦ abandoned calls _ id a (ground arith) own (ground arith)
      ]

  -- When the link is closed every call that waits raises an exception as soon as it is woken,
  -- `CdpError`, or `TimeoutError` if its timer has run by then, and no command is listed.
  pub close_releases :
      (id : ℕ) (a : Awaited) (timed_out : Bool) (c : Connection J)
      → Waits id a c
      → ((resume_call timed_out id (close c)).0
          ≡ some (err (if timed_out then timeout_error else cdp_error)))
        × ((close c).awaited ≡ [])
        × ((close c).dispatched ≡ [])
  unfolding resume_call close
  close_releases id a timed_out c w =
      (rw (abandoned c.awaited c.futures id a w.listed w.own_future w.unresolved) refl, refl, refl)
