-- ===== src/Recording/Stopped.antt =====
-- What the end of recordings leaves.
use chrome_live.Base.{
  length, nat_beq, Bool-cases, ℕ, ◌≡◌, refl, String, Option, none, some, List, [], ◌∷◌, arith, ap,
  ◌∙◌, sym, is_some, string_key, nat_key, Option-cases, inl, inr,
}
use chrome_live.Dict.{Dict, lookup, erase, erase_each, elem, keys}
use chrome_live.Dict.Laws.{eq-nil_of_lookup}
use chrome_live.Dict.Keys.{erase_absent, lookup-erase_each}
use chrome_live.Base.Exec.{Exception, Result, ok, bind_of_ok}
use chrome_live.Recording.{RecordingMeta, ActiveRecording, Recorder, post}
use chrome_live.Recording.Stopping.{
  StopEnv, stop_recording, stop_each, stop_all, finish_recording, discard, encode, stopped_meta,
  stored_meta, timed_meta,
}
use chrome_live.Recording.Runs.{finish-tables}

active-post :
    (fault : Option Exception) (method sid : String) (r : Recorder)
    → (post fault method sid r).active ≡ r.active
unfolding post
active-post none method sid r = refl
active-post (some e) method sid r = refl

active-stop_recording :
    (env : StopEnv) (sid : String) (r : Recorder)
    → (stop_recording env sid r).1.active ≡ erase sid r.active
unfolding stop_recording
active-stop_recording env sid r = elim (Option-cases (lookup sid r.active)) [
  | inl absent ↦ rw (absent, stop_recording) (sym (erase_absent sid r.active absent))
  | inr (n, found) ↦
      rw (found, stop_recording)
        ((finish-tables env (lookup n r.objects) _).0
          ∙ active-post env.stop_fault "Page.stopScreencast" sid _)
]

returns-finish :
    (env : StopEnv) (recording : Option ActiveRecording) (r : Recorder)
    → env.sidecar_fault ≡ none
    → (meta : Option RecordingMeta) × ((finish_recording env recording r).0 ≡ ok meta)
unfolding finish_recording discard encode
returns-finish env none r writable = (none, refl)
returns-finish env (some recording) r writable =
    elim (Bool-cases (nat_beq (length recording.files) 0)) [
      | inl no_frames ↦ elim (Bool-cases (stopped_meta env recording).timed_out) [
        | inl late ↦ (some (stopped_meta env recording), simp (no_frames, late, writable))
        | inr in_time ↦ (some (stopped_meta env recording), simp (no_frames, in_time))
      ]
      | inr frames ↦ elim (Option-cases env.video_fault) [
        | inl good ↦ (some (stored_meta env recording), rw (frames, good) refl)
        | inr (e, bad) ↦ (some (timed_meta env recording), rw (frames, bad) refl)
      ]
    ]

returns-stop_recording :
    (env : StopEnv) (sid : String) (r : Recorder)
    → env.sidecar_fault ≡ none
    → (meta : Option RecordingMeta) × ((stop_recording env sid r).0 ≡ ok meta)
unfolding stop_recording
returns-stop_recording env sid r writable = elim (Option-cases (lookup sid r.active)) [
  | inl absent ↦ (none, rw (absent, stop_recording) refl)
  | inr (n, found) ↦ rw (found, stop_recording) (returns-finish env (lookup n r.objects) _ writable)
]

active-stop_each :
    (env : StopEnv) (sids : List String) (r : Recorder)
    → env.sidecar_fault ≡ none
    → (stop_each env sids r).1.active ≡ erase_each sids r.active
unfolding stop_each erase_each
active-stop_each env [] r writable = refl
active-stop_each env (sid ∷ sids) r writable =
    let (meta, returned) = returns-stop_recording env sid r writable in
    ap (λ (x : Result Unit × Recorder). x.1.active)
      (bind_of_ok (stop_recording env sid) (λ m. stop_each env sids) r meta returned)
    ∙ active-stop_each env sids (stop_recording env sid r).1 writable
    ∙ ap (erase_each sids) (active-stop_recording env sid r)

elem-keys : (j : String) (d : Dict String ℕ) → elem j (keys d) ≡ is_some (lookup j d)
unfolding elem lookup
elem-keys j [] = refl
elem-keys j ((k, n) ∷ d) = ground (arith, elem-keys j d)

erase_each-keys : (d : Dict String ℕ) → erase_each (keys d) d ≡ []
erase_each-keys d =
    eq-nil_of_lookup (erase_each (keys d) d)
      (λ j. ground (arith, lookup-erase_each (keys d) j d, elem-keys j d))

-- Where the sidecars can be written, `stop_all` leaves no recording active, whether or not the
-- commands are sent and the videos are encoded. The stop of one session takes that session off the
-- table and no other, whatever is raised.
pub stop_all_lem :
    (env : StopEnv) (r : Recorder)
    → env.sidecar_fault ≡ none
    → ((stop_all env r).1.active ≡ [])
      × ((sid : String) → (stop_recording env sid r).1.active ≡ erase sid r.active)
unfolding stop_all
stop_all_lem env r writable = (
  active-stop_each env (keys r.active) r writable ∙ erase_each-keys r.active,
  λ sid. active-stop_recording env sid r,
)
