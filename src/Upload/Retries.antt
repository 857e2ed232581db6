-- ===== src/Upload/Retries.antt =====
-- When an upload succeeds, when it stops early, and how often it tries.
use chrome_live.Base.{
  ℕ, zero, suc, ◌+◌, ◌-◌, ◌*◌, ◌<◌, ◌≤◌, ◌≡◌, ◌≢◌, ◌⊎◌, inl, inr, true, false, none, some, List, [],
  ◌∷◌, nat_beq, ltb, arith, Option-cases, refl, ◌++◌, ◌∙◌,
}
use native.Mathlib.Nat.{add-zero, sub-zero}
use chrome_live.Upload.{
  attempts, backoff_seconds, Exchange, response, transport_error, Ending, sent, refused, gave_up,
  Action, attempt, sleep, verdict, attempt_from, put_recording,
}

-- The exchange had a status below 300.
abbrev pub Succeeds : Exchange → Type 0
Succeeds transport_error = ⊥
Succeeds (response status) = status < 300

-- The exchange failed in a way that may pass: no response, 429, or 500 and above.
abbrev pub IsTransient : Exchange → Type 0
IsTransient transport_error = Unit
IsTransient (response status) = (status ≡ 429) ⊎ (500 ≤ status)

-- The exchange says that no retry will help.
abbrev pub IsFatal : ℕ → Exchange → Type 0
IsFatal status transport_error = ⊥
IsFatal status (response s) = (s ≡ status) × (300 ≤ s) × (s < 500) × (s ≢ 429)

verdict-Succeeds : (size : ℕ) (x : Exchange) → Succeeds x → verdict size x ≡ some (sent size)
unfolding verdict
verdict-Succeeds size (response s) h = ground arith
verdict-Succeeds size transport_error h = absurd h

verdict-transient : (size : ℕ) (x : Exchange) → IsTransient x → verdict size x ≡ none
unfolding verdict
verdict-transient size transport_error h = refl
verdict-transient size (response s) h = ground arith

verdict-fatal :
    (size status : ℕ) (x : Exchange) → IsFatal status x → verdict size x ≡ some (refused status)
unfolding verdict
verdict-fatal size status (response s) h = ground arith
verdict-fatal size status transport_error h = absurd h

module _ (exchange : ℕ → Exchange) (size : ℕ) where
  -- the trace of `k` attempts from attempt `n` on, with the sleeps between them
  abbrev pub retries : ℕ → ℕ → List Action
  retries zero n = []
  retries (suc k) n = attempt n ∷ sleep (backoff_seconds * n) ∷ retries k (n + 1)

  -- attempts `n` up to `n + k` (exclusive) all fail in a way that may pass
  abbrev pub AllTransient : ℕ → ℕ → Type 0
  AllTransient n zero = Unit
  AllTransient n (suc k) = IsTransient (exchange n) × AllTransient (n + 1) k

  attempt_from-transient :
      (k left n : ℕ)
      → left + n ≡ attempts + 1
      → k < left
      → AllTransient n k
      → let (actions, ending) = attempt_from exchange size (left - k) (n + k) in
        attempt_from exchange size left n ≡ (retries k n ++ actions, ending)
  unfolding attempt_from
  attempt_from-transient zero left n e lt h = rw (sub-zero, add-zero)
  attempt_from-transient (suc k) zero n e lt h = absurd (omega arith)
  attempt_from-transient (suc k) (suc left) n e lt h =
      let room : ltb n attempts ≡ true = ground arith in
      let next = attempt_from-transient k left (n + 1) (omega arith) (omega arith) h.1 in
      let same_left : suc left - suc k ≡ left - k = omega arith in
      let same_number : n + suc k ≡ n + 1 + k = omega arith in
      rw (verdict-transient size (exchange n) h.0, next, room, same_left, same_number) refl

  -- what is left to do after `k` attempts that failed in a way that may pass
  put_recording-transient :
      (k : ℕ)
      → size ≢ 0
      → k < attempts
      → AllTransient 1 k
      → let (actions, ending) = attempt_from exchange size (attempts - k) (1 + k) in
        put_recording exchange size ≡ (retries k 1 ++ actions, ending)
  unfolding put_recording
  put_recording-transient k nonzero few h =
      let full : nat_beq size 0 ≡ false = ground arith in
      rw full (attempt_from-transient k attempts 1 refl few h)

  round_ends :
      (left n : ℕ) (ending : Ending)
      → 0 < left
      → verdict size (exchange n) ≡ some ending
      → attempt_from exchange size left n ≡ (attempt n ∷ [], ending)
  unfolding attempt_from
  round_ends zero n ending h v = absurd (omega arith)
  round_ends (suc left) n ending h v = rw v

  -- For a file that is not empty, when the first `k` attempts fail in a way that may pass (no
  -- response, 429, or 500 and above) and attempt `k + 1` is the third or earlier: if that attempt
  -- has a status below 300 the upload ends there with the byte count, and if it has any other
  -- status it is refused there, in both cases after exactly `k + 1` attempts, with a sleep of
  -- `2 * n` seconds after each failed attempt `n` and none after the last.
  pub put_recording_ends :
      (k status : ℕ)
      → size ≢ 0
      → k < attempts
      → AllTransient 1 k
      → (Succeeds (exchange (1 + k))
          → put_recording exchange size ≡ (retries k 1 ++ attempt (1 + k) ∷ [], sent size))
        × (IsFatal status (exchange (1 + k))
            → put_recording exchange size ≡ (retries k 1 ++ attempt (1 + k) ∷ [], refused status))
  put_recording_ends k status nonzero few h =
      let begin = put_recording-transient k nonzero few h in
      (
        λ good.
            begin
            ∙ rw (
                round_ends (attempts - k) (1 + k) (sent size) (omega arith)
                  (verdict-Succeeds size (exchange (1 + k)) good)),
        λ bad.
            begin
            ∙ rw (
                round_ends (attempts - k) (1 + k) (refused status) (omega arith)
                  (verdict-fatal size status (exchange (1 + k)) bad)),
      )

  -- For a file that is not empty, when three attempts fail in a way that may pass, the upload makes
  -- these three, sleeps 2 and 4 seconds between them and not at the end, and gives up.
  pub put_recording_gives_up :
      size ≢ 0
      → AllTransient 1 attempts
      → put_recording exchange size
        ≡ (attempt 1 ∷ sleep 2 ∷ attempt 2 ∷ sleep 4 ∷ attempt 3 ∷ [], gave_up)
  unfolding attempt_from
  put_recording_gives_up nonzero (h1, (h2, (h3, _))) =
      put_recording-transient 2 nonzero (omega arith) (h1, (h2, tt))
      ∙ rw (verdict-transient size (exchange 3) h3)

  -- What a verdict says of the exchange.
  sent_verdict : (x : Exchange) (m : ℕ) → verdict size x ≡ some (sent m) → (m ≡ size) × Succeeds x
  unfolding verdict
  sent_verdict transport_error m h = cc
  sent_verdict (response s) m h = ground arith

  open_verdict : (x : Exchange) → verdict size x ≡ none → IsTransient x
  unfolding verdict
  open_verdict transport_error h = tt
  open_verdict (response s) h = ground arith

  sent_after :
      (left n m : ℕ)
      → (attempt_from exchange size left n).1 ≡ sent m
      → (k : ℕ) × (m ≡ size) × (k < left) × AllTransient n k × Succeeds (exchange (n + k))
  unfolding attempt_from
  sent_after zero n m h = absurd (cc)
  sent_after (suc left) n m h = elim (Option-cases (verdict size (exchange n))) [
    | inl undecided ↦
        let (k, same, few, transient, good) =
          sent_after left (n + 1) m (ground (arith, undecided)) in
        (
          suc k,
          same,
          omega arith,
          (open_verdict (exchange n) undecided, transient),
          let shift : n + 1 + k ≡ n + suc k = omega arith in rw shift at good,
        )
    | inr (ending, decided) ↦
        let (same, good) = sent_verdict (exchange n) m (ground (arith, decided)) in
        (0, same, omega arith, tt, rw (add-zero n) good)
  ]

  -- An upload reports a byte count only for a file that is not empty; the count is the file's size,
  -- and one of the first three attempts had a status below 300 after all attempts before it failed
  -- in a way that may pass.
  pub put_recording_sent :
      (m : ℕ)
      → (put_recording exchange size).1 ≡ sent m
      → (k : ℕ) × (m ≡ size)
        × (size ≢ 0)
        × (k < attempts)
        × AllTransient 1 k
        × Succeeds (exchange (1 + k))
  unfolding put_recording
  put_recording_sent m h =
      let (k, same, few, transient, good) = sent_after attempts 1 m (ground arith) in
      (k, same, ground arith, few, transient, good)
