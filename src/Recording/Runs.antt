-- ===== src/Recording/Runs.antt =====
-- Any sequence of what happens to recordings: the table, the frames and the objects agree.
use chrome_live.Base.{
  ℕ, ◌≡◌, refl, String, Bool, Option, none, some, List, [], ◌∷◌, arith, nat_key, string_key,
  Option-cases, inl, inr,
}
use chrome_live.Base.Exec.{Exception}
use chrome_live.Dict.{lookup, erase}
use chrome_live.Recording.{
  ActiveRecording, Recorder, FrameWrite, new_recording, start_recording, post,
  handle_screencast_frame,
}
use chrome_live.Recording.Stopping.{
  StopEnv, stop_recording, recording_watchdog, stop_all, finish_recording, discard, encode,
  write_meta,
}
use chrome_live.Base.Exec.Keeps.{Keeps}
use chrome_live.Recording.Tables.{IsRecorder, shrunk-IsRecorder, erased}

pub data Move : Type 0 where
  started :
      (focus screencast : Option Exception) (sid : String)
      (recording_id started_at target_id url : String) (now : ℕ)
      → Move
  framed : FrameWrite → Bool → ℕ → String → Move
  stopped : StopEnv → String → Move
  expired : StopEnv → String → ℕ → Move
  all_stopped : StopEnv → Move

unfoldable pub move : Move → Recorder → Recorder
unfolding start_recording handle_screencast_frame stop_recording recording_watchdog stop_all
move (started focus screencast sid recording_id started_at target_id url now) r =
    (start_recording focus screencast sid
      (new_recording recording_id sid started_at target_id url now) r).1
move (framed write numbered now sid) r = handle_screencast_frame write numbered now sid r
move (stopped env sid) r = (stop_recording env sid r).1
move (expired env sid n) r = recording_watchdog env sid n r
move (all_stopped env) r = (stop_all env r).1

unfoldable pub run : List Move → Recorder → Recorder
unfolding move
run [] r = r
run (x ∷ xs) r = run xs (move x r)

pub finish-tables :
    (env : StopEnv) (recording : Option ActiveRecording) (r : Recorder)
    → let r' = (finish_recording env recording r).1 in
      (r'.active ≡ r.active) × (r'.objects ≡ r.objects) × (r'.created ≡ r.created)
unfolding finish_recording discard encode write_meta
finish-tables env none r = (refl, refl, refl)
finish-tables env (some recording) r = (ground arith, ground arith, ground arith)

posted :
    (fault : Option Exception) (method sid : String) (r : Recorder)
    → IsRecorder r
    → IsRecorder (post fault method sid r)
unfolding post
posted none method sid r h = shrunk-IsRecorder r _ refl refl (λ s n p. p) h
posted (some e) method sid r h = h

finished :
    (env : StopEnv) (recording : Option ActiveRecording) (r : Recorder)
    → IsRecorder r
    → IsRecorder (finish_recording env recording r).1
finished env recording r h =
    let (active, objects, created) = finish-tables env recording r in
    shrunk-IsRecorder r (finish_recording env recording r).1 objects created
      (λ sid n p. rw active at p) h

pub stop_recording-IsRecorder :
    (env : StopEnv) (sid : String) (r : Recorder)
    → IsRecorder r
    → IsRecorder (stop_recording env sid r).1
unfolding stop_recording
stop_recording-IsRecorder env sid r h = elim (Option-cases (lookup sid r.active)) [
  | inl absent ↦ rw (absent, stop_recording) h
  | inr (n, found) ↦
      rw (found, stop_recording)
        (finished env (lookup n r.objects) _ (
          posted env.stop_fault "Page.stopScreencast" sid _ (
            shrunk-IsRecorder r (record r { active = erase sid r.active }) refl refl
              (λ s k p. erased sid s k r.active p) h)))
]
