-- ===== src/Recording/Stopping.antt =====
-- The end of recordings in browser-trace/recording.py: `stop_recording`, the watchdog, `stop_all`.
use chrome_live.Base.{
  ℕ, ◌-◌, String, Bool, true, false, Option, none, some, List, [], ◌∷◌, ◌++◌, length, take, nat_beq,
  nat_key, string_key, if◌then◌else◌, sum_by,
}
use Prim.Native.String.{◌++◌ as str_append}
use chrome_live.Base.Exec.{Exception, Result, ok, err, Exec, pure, ◌>>◌}
use chrome_live.Dict.{lookup, erase, modify, keys}
use chrome_live.Recording.{RecordingMeta, ActiveRecording, Recorder, post, frame_holds}

-- What the end of a recording meets: the times of the stop and of the encoding, as a text and in
-- units, and what the stop command, the encoding and the write of the sidecar raise.
pub record StopEnv : Type 0 where
  pub stopped_at : String
  pub now : ℕ
  pub encoded : ℕ
  pub unit : ℕ
  pub stop_fault : Option Exception
  pub video_fault : Option Exception
  pub sidecar_fault : Option Exception

module _ (env : StopEnv) where
  abbrev pub stopped_meta : ActiveRecording → RecordingMeta
  stopped_meta recording = record (recording.meta) {
    stopped_at = some env.stopped_at;
    duration = some (env.now - recording.started_ts);
  }

  -- the time stamps of the frames that are encoded
  abbrev pub encoded_times : ActiveRecording → List ℕ
  encoded_times recording =
      let frames = take (length recording.frame_times) recording.files in
      take (length frames) recording.frame_times

  -- `video_seconds`, which is set before ffmpeg runs
  abbrev pub timed_meta : ActiveRecording → RecordingMeta
  timed_meta recording = record (stopped_meta recording) {
    video_time = sum_by (λ hold. hold) (frame_holds env.unit (encoded_times recording) env.encoded);
  }

  abbrev pub stored_meta : ActiveRecording → RecordingMeta
  stored_meta recording =
      let meta = timed_meta recording in
      record meta { storage_key = str_append meta.recording_id ".mp4" }

  unfoldable pub write_meta : Option Exception → RecordingMeta → Recorder → Recorder
  write_meta none meta r = record r { sidecars = r.sidecars ++ meta ∷ [] }
  write_meta (some e) meta r = r

  -- a recording with no frames
  unfoldable pub discard : ActiveRecording → Recorder → Result (Option RecordingMeta) × Recorder
  unfolding write_meta
  discard recording r =
      let meta = stopped_meta recording in
      if meta.timed_out
      then (
        elim env.sidecar_fault [ none ↦ ok (some meta) | some e ↦ err e ],
        write_meta env.sidecar_fault meta r,
      )
      else (ok (some meta), r)

  -- `_encode_and_store` and `_write_meta`; what they raise is caught
  unfoldable pub encode :
      Option Exception → ActiveRecording → Recorder → Result (Option RecordingMeta) × Recorder
  unfolding write_meta
  encode (some e) recording r = (ok (some (timed_meta recording)), r)
  encode none recording r =
      let meta = stored_meta recording in
      (
        ok (some meta),
        write_meta env.sidecar_fault meta (record r { videos = r.videos ++ meta.storage_key ∷ [] }),
      )

  unfoldable pub finish_recording :
      Option ActiveRecording → Recorder → Result (Option RecordingMeta) × Recorder
  unfolding discard encode
  finish_recording none r = (ok none, r)
  finish_recording (some recording) r =
      if nat_beq (length recording.files) 0
      then discard recording r
      else encode env.video_fault recording r

  unfoldable pub stop_recording : String → Recorder → Result (Option RecordingMeta) × Recorder
  unfolding finish_recording post
  stop_recording sid r = elim (lookup sid r.active) [
    | none ↦ (ok none, r)
    | some n ↦
        finish_recording (lookup n r.objects)
          (post env.stop_fault "Page.stopScreencast" sid (record r { active = erase sid r.active }))
  ]

  -- `get(session_id) is recording`
  abbrev pub is_recording : ℕ → Option ℕ → Bool
  is_recording n none = false
  is_recording n (some k) = nat_beq k n

  abbrev pub mark_timed_out : ActiveRecording → ActiveRecording
  mark_timed_out recording = record recording {
    meta = record (recording.meta) { timed_out = true };
  }

  -- `_recording_watchdog` after its sleep, for the recording with a number
  unfoldable pub recording_watchdog : String → ℕ → Recorder → Recorder
  unfolding stop_recording
  recording_watchdog sid n r =
      if is_recording n (lookup sid r.active)
      then (stop_recording sid (record r { objects = modify n mark_timed_out r.objects })).1
      else r

  -- An exception of a stop ends the loop.
  unfoldable pub stop_each : List String → Exec Recorder Unit
  unfolding stop_recording
  stop_each [] = pure tt
  stop_each (sid ∷ sids) = stop_recording sid >> stop_each sids

  unfoldable pub stop_all : Exec Recorder Unit
  unfolding stop_each
  stop_all r = stop_each (keys r.active) r
