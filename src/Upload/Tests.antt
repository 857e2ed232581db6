-- ===== src/Upload/Tests.antt =====
-- Runs of the upload, and each theorem at a concrete input.
use chrome_live.Base.{
  ℕ, ◌+◌, ◌<◌, ◌≡◌, ◌≢◌, refl, [], ◌∷◌, ◌++◌, arith, inr, nat_beq, if◌then◌else◌,
}
use chrome_live.Upload.{
  attempts, Exchange, response, transport_error, sent, refused, gave_up, attempt, sleep, verdict,
  attempt_from, put_recording,
}
use chrome_live.Upload.Retries.{
  Succeeds, IsFatal, AllTransient, retries, put_recording_ends, put_recording_gives_up,
  put_recording_sent,
}

-- No response, then a 503, then a 200.
recovering : ℕ → Exchange
recovering n =
    if nat_beq n 1 then transport_error else if nat_beq n 2 then response 503 else response 200

recovering_run :
    put_recording recovering 7
    ≡ (attempt 1 ∷ sleep 2 ∷ attempt 2 ∷ sleep 4 ∷ attempt 3 ∷ [], sent 7)
unfolding put_recording attempt_from recovering verdict
recovering_run = refl

put_recording_ends_example :
    (Succeeds (recovering 3)
      → put_recording recovering 7 ≡ (retries recovering 7 2 1 ++ attempt 3 ∷ [], sent 7))
    × (IsFatal 403 (recovering 3)
        → put_recording recovering 7 ≡ (retries recovering 7 2 1 ++ attempt 3 ∷ [], refused 403))
unfolding recovering
put_recording_ends_example =
    put_recording_ends recovering 7 2 403 (omega arith) (omega arith) (tt, (inr (omega arith), tt))

put_recording_gives_up_example :
    put_recording (λ n. response 503) 7
    ≡ (attempt 1 ∷ sleep 2 ∷ attempt 2 ∷ sleep 4 ∷ attempt 3 ∷ [], gave_up)
put_recording_gives_up_example =
    put_recording_gives_up (λ n. response 503) 7 (omega arith)
      (inr (omega arith), (inr (omega arith), (inr (omega arith), tt)))

put_recording_sent_example :
    (k : ℕ) × ◌≡◌ {A = ℕ} 7 7
    × ◌≢◌ {A = ℕ} 7 0
    × (k < attempts)
    × AllTransient recovering 7 1 k
    × Succeeds (recovering (1 + k))
unfolding put_recording attempt_from recovering verdict
put_recording_sent_example = put_recording_sent recovering 7 7 refl
