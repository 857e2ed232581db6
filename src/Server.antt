-- ===== src/Server.antt =====
-- browser-trace/server.py: the listing of recordings, the paths that are served, and the answers of
-- the handlers. The directory and its files are arguments; a path is the list of its names, and
-- symbolic links are left out.
pub mod Order
pub mod Listing
pub mod Paths
mod Tests
use chrome_live.Base.{
  ℕ, Bool, true, false, ◌&&◌, Option, none, some, List, [], ◌∷◌, ◌++◌, min, nat_beq, ltb,
  if◌then◌else◌, ◌==◌,
}
use chrome_live.Base.Int.{ℤ, pos_part}
use chrome_live.Base.Text.{Text, codes, text_key}
use chrome_live.Base.Exec.{Exception, value_error, Outcome, Result, ok, err}
use chrome_live.Dict.{Dict, contains, insert}
use chrome_live.Config.{TextLib}
use chrome_live.Thumbnail.Screenshot.{Answer}

-- A value of a sidecar: one that the server writes, or one that was read.
pub data Value (J : Type 0) : Type 0 where
  null : Value J
  text : Text → Value J
  number : ℕ → Value J
  other : J → Value J

-- What reading a sidecar gives: no file, an `OSError` or a `JSONDecodeError`, another exception, or
-- an object.
pub data Sidecar (J : Type 0) : Type 0 where
  absent unreadable : Sidecar J
  failing : Exception → Sidecar J
  object : Dict Text (Value J) → Sidecar J

-- The directory of the recordings: the stems of its `.mp4` files, in the order of the file system,
-- the sidecar and the size of each.
pub record Recordings (J : Type 0) : Type 0 where
  pub exists : Bool
  pub stems : List Text
  pub sidecar : Text → Sidecar J
  pub size : Text → Option ℕ

abbrev pub mp4 : Text → Text
mp4 stem = stem ++ codes ".mp4"

-- the order of texts
unfoldable pub text_leb : Text → Text → Bool
text_leb [] y = true
text_leb (a ∷ x) [] = false
text_leb (a ∷ x) (b ∷ y) = let rest = text_leb x y in if nat_beq a b then rest else ltb a b

-- `sorted(paths, reverse=True)` for the files of one directory, by their names
unfoldable pub place_name : Text → List Text → List Text
unfolding text_leb
place_name x [] = x ∷ []
place_name x (y ∷ ys) =
    let rest = place_name x ys in if text_leb (mp4 y) (mp4 x) then x ∷ y ∷ ys else y ∷ rest

unfoldable pub newest_first : List Text → List Text
unfolding place_name
newest_first [] = []
newest_first (x ∷ xs) = place_name x (newest_first xs)

abbrev pub video_url : Text → Text
video_url stem = codes "/recordings/" ++ stem ++ codes "/video"

module _ {J : Type 0} where
  -- `meta.setdefault(key, value)`
  unfoldable pub set_default : Text → Value J → Dict Text (Value J) → Dict Text (Value J)
  unfolding contains insert
  set_default key value meta = if contains key meta then meta else insert key value meta

  abbrev pub size_value : Option ℕ → Value J
  size_value none = Value.null
  size_value (some n) = Value.number n

  unfoldable pub complete_meta : Text → Option ℕ → Dict Text (Value J) → Dict Text (Value J)
  unfolding set_default insert
  complete_meta stem size meta = insert (codes "video_url") (Value.text (video_url stem)) (
      insert (codes "size_bytes") (size_value size) (
        set_default (codes "storage_key") (Value.text (mp4 stem))
          (set_default (codes "recording_id") (Value.text stem) meta)))

  unfoldable pub read_meta : Sidecar J → Result (Dict Text (Value J))
  read_meta Sidecar.absent = ok []
  read_meta Sidecar.unreadable = ok []
  read_meta (Sidecar.failing e) = err e
  read_meta (Sidecar.object meta) = ok meta

  abbrev pub add_item :
      Result (Dict Text (Value J))
      → Result (List (Dict Text (Value J)))
      → Text
      → Option ℕ
      → Result (List (Dict Text (Value J)))
  add_item (err e) items stem size = err e
  add_item (ok meta) (err e) stem size = err e
  add_item (ok meta) (ok items) stem size = ok (complete_meta stem size meta ∷ items)

  unfoldable pub list_each : Recordings J → List Text → Result (List (Dict Text (Value J)))
  unfolding read_meta complete_meta
  list_each dir [] = ok []
  list_each dir (stem ∷ stems) =
      add_item (read_meta (dir.sidecar stem)) (list_each dir stems) stem (dir.size stem)

  unfoldable pub list_recordings : Recordings J → Result (List (Dict Text (Value J)))
  unfolding list_each newest_first
  list_recordings dir =
      let items = list_each dir (newest_first dir.stems) in if dir.exists then items else ok []

-- `/` and the names of a path between slashes
abbrev pub slash : ℕ
slash = 47

unfoldable pub split_path : Text → List Text
split_path [] = [] ∷ []
split_path (c ∷ cs) =
    let rest = split_path cs in
    if nat_beq c slash
    then [] ∷ rest
    else elim rest [ [] ↦ (c ∷ []) ∷ [] | ◌∷◌ name more ↦ (c ∷ name) ∷ more ]

-- the parent, which the root is of itself
unfoldable pub parent : List Text → List Text
parent [] = []
parent (x ∷ []) = []
parent (x ∷ (y ∷ ys)) = x ∷ parent (y ∷ ys)

-- `Path.resolve`: an absolute path starts at the root, empty names and `.` stay, `..` goes up.
unfoldable pub enter : List Text → Text → List Text
unfolding parent
enter path name =
    if name == []
    then path
    else if name == codes "."
    then path
    else if name == codes ".."
    then parent path
    else path ++ name ∷ []

unfoldable pub walk : List Text → List Text → List Text
unfolding enter
walk path [] = path
walk path (name ∷ names) = walk (enter path name) names

abbrev pub start_of : List Text → Text → List Text
start_of base [] = base
start_of base (c ∷ cs) = if nat_beq c slash then [] else base

unfoldable pub resolve : List Text → Text → List Text
unfolding walk split_path
resolve base name = walk (start_of base name) (split_path name)

-- `candidate.relative_to(base)` raises no `ValueError`.
unfoldable pub is_below : List Text → List Text → Bool
is_below [] path = true
is_below (x ∷ xs) [] = false
is_below (x ∷ xs) (y ∷ ys) = let rest = is_below xs ys in (x == y) && rest

-- What the file system says: whether `Path.resolve` raises on a name, as on one with a NUL, and what
-- `is_file` returns or raises, as on a name that is too long.
pub record FileSystem : Type 0 where
  pub resolving : Text → Outcome
  pub is_file : List Text → Result Bool

abbrev pub if_file : List Text → Result Bool → Result (Option (List Text))
if_file path (ok true) = ok (some path)
if_file path (ok false) = ok none
if_file path (err e) = err e

unfoldable pub checked : FileSystem → List Text → List Text → Outcome → Result (Option (List Text))
unfolding is_below
checked files base candidate (err e) = err e
checked files base candidate (ok u) =
    if is_below base candidate then if_file candidate (files.is_file candidate) else ok none

-- `base` is the directory of the recordings, resolved.
unfoldable pub safe_recording_path :
    FileSystem → List Text → Text → Text → Result (Option (List Text))
unfolding resolve checked
safe_recording_path files base recording_id suffix =
    let name = recording_id ++ suffix in
    checked files base (resolve base name) (files.resolving name)

-- An exception that no handler takes is answered with 500.
abbrev pub answer_video : Result (Option (List Text)) → Answer (List Text)
answer_video (err e) = record { status = 500; body = none }
answer_video (ok none) = record { status = 404; body = none }
answer_video (ok (some path)) = record { status = 200; body = some path }

unfoldable pub handle_video : FileSystem → List Text → Text → Answer (List Text)
unfolding safe_recording_path
handle_video files base recording_id =
    answer_video (safe_recording_path files base recording_id (codes ".mp4"))

-- The host limit of `handle_traffic`, where a text that is no number is a bad request.
unfoldable pub clamp_limit : Option ℤ → Result ℕ
clamp_limit none = err value_error
clamp_limit (some n) = ok (min (pos_part n) 1000)

unfoldable pub host_limit : TextLib → Option Text → Result ℕ
unfolding clamp_limit
host_limit lib none = ok 20
host_limit lib (some raw) = clamp_limit (lib.to_int raw)
