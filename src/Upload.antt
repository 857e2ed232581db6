-- ===== src/Upload.antt =====
-- browser-trace/upload.py: one recording is sent to a signed URL, with retries. The HTTP exchange
-- of an attempt is not part of the source: what it ends in is an argument, a function of the
-- attempt's number. Texts of error messages are left out, except for which of them is raised.
pub mod Retries
mod Tests
use chrome_live.Base.{
  ℕ, zero, suc, ◌+◌, ◌-◌, ◌*◌, ◌<◌, String, Bool, ◌||◌, Option, none, some, List, [], ◌∷◌, nat_beq,
  ltb, leb, if◌then◌else◌,
}
use chrome_live.Base.Exec.{Result, ok, err}

-- `_ATTEMPTS`
abbrev pub attempts : ℕ
attempts = 3

-- `_BACKOFF_SECONDS`
abbrev pub backoff_seconds : ℕ
backoff_seconds = 2

-- How the exchange of one attempt ends: a response with its status, or an `aiohttp.ClientError` or
-- a timeout.
pub data Exchange : Type 0 where
  response : ℕ → Exchange
  transport_error : Exchange

-- The ways in which `put_recording` ends: the byte count, or an `UploadError`.
pub data Ending : Type 0 where
  sent : ℕ → Ending
  empty_file : Ending
  refused : ℕ → Ending
  gave_up : Ending

-- What the loop does on the way: an attempt, or a sleep in seconds.
pub data Action : Type 0 where
  attempt : ℕ → Action
  sleep : ℕ → Action

unfoldable pub retriable : ℕ → Bool
retriable status = nat_beq status 429 || leb 500 status

-- How an attempt goes on: a return, a raise, or the next round.
unfoldable pub verdict : ℕ → Exchange → Option Ending
unfolding retriable
verdict size transport_error = none
verdict size (response status) =
    if ltb status 300
    then some (sent size)
    else if retriable status
    then none
    else some (refused status)

abbrev pub before_next : ℕ → List Action → List Action
before_next n rest = if ltb n attempts then sleep (backoff_seconds * n) ∷ rest else rest

-- A round of the loop, on its verdict, before the rounds `rest`.
abbrev pub round : ℕ → Option Ending → List Action × Ending → List Action × Ending
round n (some ending) rest = (attempt n ∷ [], ending)
round n none rest = (attempt n ∷ before_next n rest.0, rest.1)

-- The `for` loop: `left` rounds, the first of them attempt `n`.
unfoldable pub attempt_from : (ℕ → Exchange) → ℕ → ℕ → ℕ → List Action × Ending
attempt_from exchange size zero n = ([], gave_up)
attempt_from exchange size (suc left) n =
    round n (verdict size (exchange n)) (attempt_from exchange size left (n + 1))

unfoldable pub put_recording : (ℕ → Exchange) → ℕ → List Action × Ending
unfolding attempt_from
put_recording exchange size =
    if nat_beq size 0 then ([], empty_file) else attempt_from exchange size attempts 1

-- The file that `newest_recording` takes: the greatest of the names, in an order on names.
module _ {A : Type 0} (lt : A → A → Bool) where
  -- `sorted(names, reverse=True)[0]`
  greatest : A → List A → A
  greatest best [] = best
  greatest best (x ∷ xs) = greatest (if lt best x then x else best) xs

  unfoldable pub newest_recording : List A → Option A
  unfolding greatest
  newest_recording [] = none
  newest_recording (x ∷ xs) = some (greatest x xs)

-- The exit code of `run_record`.
pub exit_code : Ending → ℕ
exit_code (sent n) = 0
exit_code empty_file = 1
exit_code (refused status) = 1
exit_code gave_up = 1
