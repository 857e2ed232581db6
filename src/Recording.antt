-- ===== src/Recording.antt =====
-- browser-trace/recording.py: the table of active recordings, their frames, watchdog and end. The
-- files, ffmpeg and the clock are outside: what they do is an argument. A recording object has a
-- number, its identity; times are naturals of a unit of which a thirtieth second has a whole number.
pub mod Stopping
pub mod Holds
pub mod Frames
pub mod Tables
pub mod Runs
pub mod Stopped
mod Tests
use chrome_live.Base.{
  ℕ, ◌+◌, ◌*◌, ◌-◌, String, Bool, true, false, Option, none, some, List, [], ◌∷◌, ◌++◌, length,
  take, max, min, ◌==◌, nat_key, string_key, nat_beq, leb, if◌then◌else◌, sum_by,
}
use chrome_live.Base.Exec.{Exception, Result, ok, err}
use chrome_live.Dict.{Dict, lookup, insert, erase, modify, elem, keys, contains}

pub record RecordingMeta : Type 0 where
  pub recording_id : String
  pub session_id : String
  pub started_at : String
  pub stopped_at : Option String
  pub duration : Option ℕ
  pub storage_key : String
  pub target_id : String
  pub url : String
  pub timed_out : Bool
  pub video_time : ℕ

-- `files` are the numbers of the frame files in `frames_dir`.
pub record ActiveRecording : Type 0 where
  pub meta : RecordingMeta
  pub files : List ℕ
  pub frame_count : ℕ
  pub started_ts : ℕ
  pub frame_times : List ℕ
  pub has_timeout_task : Bool

-- `_active_recording_by_session`, the recording objects by their numbers, the methods that were
-- sent with their sessions, and what was stored: the sidecars and the videos.
pub record Recorder : Type 0 where
  pub active : Dict String ℕ
  pub objects : Dict ℕ ActiveRecording
  pub created : ℕ
  pub outbox : List (String × String)
  pub sidecars : List RecordingMeta
  pub videos : List String

abbrev pub idle : Recorder
idle = record { active = []; objects = []; created = 0; outbox = []; sidecars = []; videos = [] }

-- `conn.send`: the frame is written, or the write raises.
unfoldable pub post : Option Exception → String → String → Recorder → Recorder
post none method sid r = record r { outbox = r.outbox ++ (method, sid) ∷ [] }
post (some e) method sid r = r

abbrev pub new_recording : String → String → String → String → String → ℕ → ActiveRecording
new_recording recording_id sid started_at target_id url now = record {
  meta = record {
    recording_id = recording_id;
    session_id = sid;
    started_at = started_at;
    stopped_at = none;
    duration = none;
    storage_key = "";
    target_id = target_id;
    url = url;
    timed_out = false;
    video_time = 0;
  };
  files = [];
  frame_count = 0;
  started_ts = now;
  frame_times = [];
  has_timeout_task = false;
}

-- the entry for a session that has none, before the commands are sent
abbrev pub list_recording : String → ActiveRecording → Recorder → Recorder
list_recording sid recording r = record r {
  active = insert sid (r.created + 1) r.active;
  objects = insert (r.created + 1) recording r.objects;
  created = r.created + 1;
}

abbrev pub arm_watchdog : ActiveRecording → ActiveRecording
arm_watchdog recording = record recording { has_timeout_task = true }

-- what follows the two commands: the watchdog, or the `except` branch
unfoldable pub armed : Option Exception → String → ℕ → Recorder → Result ℕ × Recorder
armed none sid n r = (ok n, record r { objects = modify n arm_watchdog r.objects })
armed (some e) sid n r = (err e, record r { active = erase sid r.active })

-- `Page.startScreencast` is sent where the first command was.
unfoldable pub send_both :
    Option Exception → Option Exception → String → Recorder → Option Exception × Recorder
unfolding post
send_both none fault sid r = (
  fault,
  post fault "Page.startScreencast" sid (post none "Emulation.setFocusEmulationEnabled" sid r),
)
send_both (some e) fault sid r = (some e, r)

-- `start_recording`, with the number of the recording in place of its id. `focus` and `screencast`
-- are what the writes of the two commands raise.
unfoldable pub start_recording :
    (focus screencast : Option Exception) (sid : String) (recording : ActiveRecording)
    → Recorder
    → Result ℕ × Recorder
unfolding armed send_both
start_recording focus screencast sid recording r = elim (lookup sid r.active) [
  | some n ↦ (ok n, r)
  | none ↦
      let (raised, r') = send_both focus screencast sid (list_recording sid recording r) in
      armed raised sid (r.created + 1) r'
]

-- What the write of a frame does: it ends, or it raises with the file made or not.
pub data FrameWrite : Type 0 where
  written : FrameWrite
  failed : Bool → FrameWrite

abbrev pub add_file : ℕ → List ℕ → List ℕ
add_file n files = if elem n files then files else files ++ n ∷ []

unfoldable pub store_frame : FrameWrite → ℕ → ActiveRecording → ActiveRecording
store_frame written now recording = record recording {
  files = add_file recording.frame_count recording.files;
  frame_count = recording.frame_count + 1;
  frame_times = recording.frame_times ++ now ∷ [];
}
store_frame (failed true) now recording = record recording {
  files = add_file recording.frame_count recording.files;
}
store_frame (failed false) now recording = recording

-- the acknowledgement of a frame that was written and that has a number
unfoldable pub acknowledge : FrameWrite → Bool → String → Recorder → Recorder
unfolding post
acknowledge written true sid r = post none "Page.screencastFrameAck" sid r
acknowledge written false sid r = r
acknowledge (failed made) numbered sid r = r

unfoldable pub handle_screencast_frame : FrameWrite → Bool → ℕ → String → Recorder → Recorder
unfolding store_frame acknowledge
handle_screencast_frame write numbered now sid r = elim (lookup sid r.active) [
  | none ↦ r
  | some n ↦
      acknowledge write numbered sid
        (record r { objects = modify n (store_frame write now) r.objects })
]

-- `_MIN_FRAME_HOLD_SECONDS` and `_MAX_FRAME_HOLD_SECONDS`, in units of which a thirtieth of a second
-- has `unit`
abbrev pub min_frame_hold : ℕ → ℕ
min_frame_hold unit = unit

abbrev pub max_frame_hold : ℕ → ℕ
max_frame_hold unit = 150 * unit

abbrev pub clamp_gap : ℕ → ℕ → ℕ
clamp_gap unit gap = min (max gap (min_frame_hold unit)) (max_frame_hold unit)

-- `_frame_holds`: the gap to the next frame, or to the stop, is zero where the clock went back.
unfoldable pub frame_holds : ℕ → List ℕ → ℕ → List ℕ
frame_holds unit [] stopped = []
frame_holds unit (arrived ∷ []) stopped = clamp_gap unit (stopped - arrived) ∷ []
frame_holds unit (arrived ∷ (next ∷ rest)) stopped =
    clamp_gap unit (next - arrived) ∷ frame_holds unit (next ∷ rest) stopped
