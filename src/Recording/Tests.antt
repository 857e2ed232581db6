-- ===== src/Recording/Tests.antt =====
-- Runs of the recorder, and each theorem at a concrete input.
use chrome_live.Base.{
  ℕ, ◌+◌, ◌≡◌, refl, String, true, none, some, List, [], ◌∷◌, length, All, sum_by, arith,
  string_key,
}
use chrome_live.Base.Exec.{os_error}
use chrome_live.Dict.{lookup, insert, erase, modify, elem}
use chrome_live.Recording.{
  Recorder, idle, written, failed, frame_holds, start_recording, handle_screencast_frame,
}
use chrome_live.Recording.Stopping.{StopEnv, stop_all, stop_recording, recording_watchdog}
use chrome_live.Recording.Holds.{IsClamped, frame_holds_lem, frame_holds_tile}
use chrome_live.Recording.Stopped.{stop_all_lem}
use chrome_live.Recording.Runs.{Move, started, framed, stopped, expired, run}

abbrev sample_env : StopEnv
sample_env = record {
  stopped_at = "t9";
  now = 900;
  encoded = 900;
  unit = 1;
  stop_fault = some os_error;
  video_fault = none;
  sidecar_fault = none;
}

-- A start, a re-attach, a frame, a frame whose write leaves a file, a frame, a watchdog of another
-- recording, the stop; and a start whose second command is not written.
abbrev sample_moves : List Move
sample_moves =
    started none none "S" "id1" "t0" "T" "u" 0
    ∷ started none none "S" "id2" "t1" "T" "u" 5
    ∷ framed written true 10 "S"
    ∷ framed (failed true) true 20 "S"
    ∷ framed written true 30 "S"
    ∷ expired sample_env "S" 7
    ∷ stopped sample_env "S"
    ∷ started none (some os_error) "Z" "id3" "t2" "T" "u" 5
    ∷ []

sample_run :
    ((run sample_moves idle).videos ≡ "id1.mp4" ∷ [])
    × ((run sample_moves idle).active ≡ [])
    × ((run sample_moves idle).created ≡ 2)
unfolding run lookup insert erase modify elem start_recording handle_screencast_frame stop_recording
    recording_watchdog frame_holds
sample_run = (refl, refl, refl)

abbrev odd_times : List ℕ
odd_times = 100 ∷ 95 ∷ 9000 ∷ []

frame_holds_lem_example :
    let holds = frame_holds 10 odd_times 9004 in
    (length holds ≡ length odd_times) × All (IsClamped 10) holds
frame_holds_lem_example = frame_holds_lem 10 odd_times 9004

frame_holds_tile_example :
    100 + sum_by (λ hold. hold) (frame_holds 10 (100 ∷ 130 ∷ 900 ∷ []) 1000) ≡ 1000
frame_holds_tile_example =
    frame_holds_tile 10 100 (130 ∷ 900 ∷ []) 1000
      ((omega arith, omega arith), ((omega arith, omega arith), (omega arith, omega arith)))

abbrev two_active : Recorder
two_active =
    run
      (started none none "S" "id1" "t0" "T" "u" 0 ∷ started none none "Z" "id2" "t1" "V" "v" 5 ∷ [])
      idle

stop_all_lem_example :
    ((stop_all sample_env two_active).1.active ≡ [])
    × ((sid : String)
        → (stop_recording sample_env sid two_active).1.active ≡ erase sid two_active.active)
stop_all_lem_example = stop_all_lem sample_env two_active refl
