-- ===== src/Server/Tests.antt =====
-- A directory of recordings, runs, and the theorems at concrete inputs.
use mathlib.Core.List.{Perm}
use chrome_live.Base.{
  ℕ, true, none, some, List, [], ◌∷◌, ◌++◌, ◌≡◌, refl, All, Bool-cases, inl, inr, ◌==◌,
  if◌then◌else◌,
}
use chrome_live.Base.Text.{Text, codes, text_key, has_char}
use chrome_live.Base.Exec.{value_error, os_error, ok, err}
use chrome_live.Dict.{Dict}
use chrome_live.Config.Tests.{sample_lib}
use chrome_live.Server.{
  Value, Sidecar, Recordings, text_leb, place_name, newest_first, list_recordings, split_path,
  parent, enter, walk, resolve, is_below, safe_recording_path, handle_video, FileSystem, checked,
  clamp_limit, host_limit,
}
use chrome_live.Server.Order.{IsNewestFirst}
use chrome_live.Server.Listing.{IsReadable, Lists, list_recordings_lem}
use chrome_live.Server.Paths.{IsName, safe_recording_path-contained, handle_video_lem}

abbrev sample_sidecar : Text → Sidecar ℕ
sample_sidecar stem =
    if stem == codes "b"
    then Sidecar.object ((codes "recording_id", Value.text (codes "rec")) ∷ [])
    else Sidecar.unreadable

abbrev sample_dir : Recordings ℕ
sample_dir = record {
  exists = true;
  stems = codes "a" ∷ codes "b" ∷ [];
  sidecar = sample_sidecar;
  size = λ stem. some 7;
}

newest :
    newest_first (codes "a" ∷ codes "c" ∷ codes "b" ∷ []) ≡ codes "c" ∷ codes "b" ∷ codes "a" ∷ []
unfolding newest_first place_name text_leb
newest = refl

sample_dir-IsReadable : (stem : Text) → IsReadable (sample_dir.sidecar stem)
sample_dir-IsReadable stem = elim (Bool-cases (stem == codes "b")) [
  | inl e ↦ rw e tt
  | inr e ↦ rw e tt
]

list_recordings_lem_example :
    (stems : List Text) × (items : List (Dict Text (Value ℕ))) × (list_recordings sample_dir
      ≡ ok items)
    × Perm stems (codes "a" ∷ codes "b" ∷ [])
    × IsNewestFirst stems
    × Lists sample_dir stems items
list_recordings_lem_example = list_recordings_lem sample_dir refl sample_dir-IsReadable

abbrev base : List Text
base = codes "tmp" ∷ codes "recordings" ∷ []

abbrev always : FileSystem
always = record { resolving = λ name. ok tt; is_file = λ path. ok true }

-- a file system that cannot look up a name
abbrev never : FileSystem
never = record { resolving = λ name. ok tt; is_file = λ path. err os_error }

fails : handle_video never base (codes "x") ≡ record { status = 500; body = none }
unfolding handle_video safe_recording_path checked resolve walk enter parent split_path is_below
fails = refl

escapes : handle_video always base (codes "../../etc/x") ≡ record { status = 404; body = none }
unfolding handle_video safe_recording_path checked resolve walk enter parent split_path is_below
escapes = refl

-- A slash or `..` that does not leave the directory is followed.
turns_back :
    handle_video always base (codes "a/../b")
    ≡ record { status = 200; body = some (base ++ codes "b.mp4" ∷ []) }
unfolding handle_video safe_recording_path checked resolve walk enter parent split_path is_below
turns_back = refl

safe_recording_path-contained_example :
    let path = base ++ codes "b.mp4" ∷ [] in
    (is_below base path ≡ true) × (always.is_file path ≡ ok true) × All IsName path
unfolding safe_recording_path checked resolve walk enter parent split_path is_below
safe_recording_path-contained_example =
    safe_recording_path-contained always base (codes "a/../b") (codes ".mp4")
      (base ++ codes "b.mp4" ∷ [])
      (
        record { not_empty = refl; not_here = refl; not_up = refl },
        (record { not_empty = refl; not_here = refl; not_up = refl }, tt),
      )
      refl

handle_video_lem_example :
    handle_video always base (codes "b")
    ≡ record { status = 200; body = some (base ++ codes "b.mp4" ∷ []) }
unfolding has_char
handle_video_lem_example = handle_video_lem always base (codes "b") refl

limits :
    (host_limit sample_lib none ≡ ok 20)
    × (host_limit sample_lib (some (codes "5000")) ≡ ok 1000)
    × (host_limit sample_lib (some (codes "x")) ≡ err value_error)
unfolding host_limit clamp_limit
limits = (refl, refl, refl)
