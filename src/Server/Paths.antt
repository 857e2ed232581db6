-- ===== src/Server/Paths.antt =====
-- Which files `GET /recordings/{id}/video` serves.
use chrome_live.Base.{
  Bool, true, false, none, some, List, [], ◌∷◌, ◌++◌, ◌≡◌, refl, arith, All, All-append, nat_beq,
  ◌==◌, ==-refl, Bool-cases, inl, inr,
}
use mathlib.Core.Path.{subst, ap, ◌∙◌}
use chrome_live.Base.Exec.{Outcome, Result, ok, err}
use chrome_live.Base.Text.{Text, codes, text_key, has_char}
use chrome_live.Thumbnail.Screenshot.{Answer}
use chrome_live.Server.{
  mp4, slash, split_path, parent, enter, walk, start_of, FileSystem, answer_video, checked, resolve,
  is_below, safe_recording_path, handle_video,
}

-- a name of a directory or a file
pub record IsName (name : Text) : Type 0 where
  pub not_empty : (name == []) ≡ false
  pub not_here : (name == codes ".") ≡ false
  pub not_up : (name == codes "..") ≡ false

parent-IsName : (path : List Text) → All IsName path → All IsName (parent path)
unfolding parent
parent-IsName [] h = tt
parent-IsName (x ∷ []) h = tt
parent-IsName (x ∷ (y ∷ ys)) h = (h.0, parent-IsName (y ∷ ys) h.1)

enter-IsName : (path : List Text) (name : Text) → All IsName path → All IsName (enter path name)
unfolding enter
enter-IsName path name h = elim (Bool-cases (name == [])) [
  | inl e ↦ rw e h
  | inr not_empty ↦ elim (Bool-cases (name == codes ".")) [
    | inl here ↦ rw (not_empty, here) h
    | inr not_here ↦ elim (Bool-cases (name == codes "..")) [
      | inl up ↦ rw (not_empty, not_here, up) (parent-IsName path h)
      | inr not_up ↦
          rw (not_empty, not_here, not_up)
            (All-append IsName path (name ∷ []) h
              (record { not_empty = not_empty; not_here = not_here; not_up = not_up }, tt))
    ]
  ]
]

walk-IsName : (path names : List Text) → All IsName path → All IsName (walk path names)
unfolding walk
walk-IsName path [] h = h
walk-IsName path (name ∷ names) h = walk-IsName (enter path name) names (enter-IsName path name h)

start_of-IsName :
    (base : List Text) (name : Text) → All IsName base → All IsName (start_of base name)
start_of-IsName base [] h = h
start_of-IsName base (c ∷ cs) h = elim (Bool-cases (nat_beq c slash)) [
  | inl e ↦ rw e tt
  | inr e ↦ rw e h
]

-- For a directory whose path has only plain names, and whatever the identifier is, also one with
-- `..` or slashes: a path that is served is a file, it lies below the directory, and none of its
-- names is empty, `.` or `..`.
pub safe_recording_path-contained :
    (files : FileSystem) (base : List Text) (id suffix : Text) (path : List Text)
    → All IsName base
    → safe_recording_path files base id suffix ≡ ok (some path)
    → (is_below base path ≡ true) × (files.is_file path ≡ ok true) × All IsName path
unfolding safe_recording_path resolve checked
safe_recording_path-contained files base id suffix path names h =
    let candidate = resolve base (id ++ suffix) in
    let plain =
      walk-IsName (start_of base (id ++ suffix)) (split_path (id ++ suffix))
        (start_of-IsName base (id ++ suffix) names) in
    let (below, file, same) : (is_below base path ≡ true)
        × (files.is_file path ≡ ok true)
        × (candidate ≡ path) =
      ground (arith, h) in
    (below, file, subst (All IsName) same plain)

split_path-plain : (x : Text) → has_char slash x ≡ false → split_path x ≡ x ∷ []
unfolding split_path has_char
split_path-plain [] h = refl
split_path-plain (c ∷ x) h = ground (arith, split_path-plain x)

has_slash-mp4 : (x : Text) → has_char slash x ≡ false → has_char slash (mp4 x) ≡ false
unfolding has_char
has_slash-mp4 [] h = refl
has_slash-mp4 (c ∷ x) h = ground (arith, has_slash-mp4 x)

mp4-IsName : (x : Text) → IsName (mp4 x)
mp4-IsName [] = record { not_empty = refl; not_here = refl; not_up = refl }
mp4-IsName (a ∷ []) = record { not_empty = refl; not_here = ground arith; not_up = ground arith }
mp4-IsName (a ∷ (b ∷ [])) = record {
  not_empty = refl;
  not_here = ground arith;
  not_up = ground arith;
}
mp4-IsName (a ∷ (b ∷ (c ∷ x))) = record {
  not_empty = refl;
  not_here = ground arith;
  not_up = ground arith;
}

is_below-append : (base rest : List Text) → is_below base (base ++ rest) ≡ true
unfolding is_below
is_below-append [] rest = refl
is_below-append (x ∷ base) rest = rw (==-refl x) (is_below-append base rest)

start_of-mp4 :
    (base : List Text) (x : Text) → has_char slash x ≡ false → start_of base (mp4 x) ≡ base
unfolding has_char
start_of-mp4 base [] h = refl
start_of-mp4 base (c ∷ x) h = ground (arith, h)

resolve-mp4 :
    (base : List Text) (x : Text)
    → has_char slash x ≡ false
    → resolve base (mp4 x) ≡ base ++ mp4 x ∷ []
unfolding resolve
resolve-mp4 base x h =
    let name = mp4-IsName x in
    rw (split_path-plain (mp4 x) (has_slash-mp4 x h), start_of-mp4 base x h)
      (rw (walk, enter, name.not_empty, name.not_here, name.not_up) refl)

-- the answer for a path, on whether its name is resolved and whether it is a file
abbrev pub served : List Text → Outcome → Result Bool → Answer (List Text)
served path (err e) r = record { status = 500; body = none }
served path (ok u) (err e) = record { status = 500; body = none }
served path (ok u) (ok true) = record { status = 200; body = some path }
served path (ok u) (ok false) = record { status = 404; body = none }

served_checked :
    (files : FileSystem) (base path : List Text) (resolved : Outcome) (r : Result Bool)
    → is_below base path ≡ true
    → files.is_file path ≡ r
    → answer_video (checked files base path resolved) ≡ served path resolved r
unfolding checked
served_checked files base path (err e) r b f = refl
served_checked files base path (ok u) (err e) b f = rw (b, f) refl
served_checked files base path (ok u) (ok true) b f = rw (b, f) refl
served_checked files base path (ok u) (ok false) b f = rw (b, f) refl

-- An identifier without a slash is answered with the file of that name in the directory of the
-- recordings, if it is a file, with 404 if it is none, and with 500 if the name cannot be resolved or
-- looked up.
pub handle_video_lem :
    (files : FileSystem) (base : List Text) (id : Text)
    → has_char slash id ≡ false
    → let path = base ++ mp4 id ∷ [] in
      handle_video files base id ≡ served path (files.resolving (mp4 id)) (files.is_file path)
unfolding handle_video safe_recording_path
handle_video_lem files base id h =
    let path = base ++ mp4 id ∷ [] in
    ap (λ p. answer_video (checked files base p (files.resolving (mp4 id)))) (resolve-mp4 base id h)
    ∙ served_checked files base path (files.resolving (mp4 id)) (files.is_file path)
        (is_below-append base (mp4 id ∷ [])) refl
