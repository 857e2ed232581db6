-- ===== src/Server/Listing.antt =====
-- What `GET /recordings` lists.
use mathlib.Core.List.{Perm}
use chrome_live.Base.{
  Bool, true, Option, none, some, List, [], ◌∷◌, ◌≡◌, refl, ap, ◌∙◌, arith, All, if◌then◌else◌,
  ◌==◌,
}
use chrome_live.Base.Text.{Text, codes, text_key, text_beq_iff}
use chrome_live.Base.Exec.{ok}
use chrome_live.Dict.{Dict, lookup, contains, insert}
use chrome_live.Dict.Laws.{lookup-insert}
use chrome_live.Server.{
  Value, Sidecar, Recordings, mp4, newest_first, set_default, size_value, video_url, complete_meta,
  read_meta, list_each, list_recordings,
}
use chrome_live.Server.Order.{IsNewestFirst, newest_first-IsNewestFirst, newest_first-perm}

All-intro {ℓ κ} : {A : Type ℓ} {P : A → Type κ} (xs : List A) → ((x : A) → P x) → All P xs
All-intro [] f = tt
All-intro (x ∷ xs) f = (f x, All-intro xs f)

module _ {J : Type 0} where
  -- what a sidecar says of a key
  abbrev pub recorded : Sidecar J → Text → Option (Value J)
  unfolding lookup
  recorded (Sidecar.object meta) key = lookup key meta
  recorded s key = none

  abbrev pub or_value : Option (Value J) → Value J → Value J
  or_value none v = v
  or_value (some w) v = w

  -- The sidecar does not raise what the handler does not take.
  abbrev pub IsReadable : Sidecar J → Type 0
  IsReadable (Sidecar.failing e) = ⊥
  IsReadable s = Unit

  -- The entry of a recording: its video and its size as they are on disk, and the identifier and the
  -- storage key of its sidecar, or those of its file name.
  pub record IsEntry (dir : Recordings J) (stem : Text) (item : Dict Text (Value J)) : Type 0 where
    pub video : lookup (codes "video_url") item ≡ some (Value.text (video_url stem))
    pub size : lookup (codes "size_bytes") item ≡ some (size_value (dir.size stem))
    pub identifier :
        lookup (codes "recording_id") item
        ≡ some (or_value (recorded (dir.sidecar stem) (codes "recording_id")) (Value.text stem))
    pub storage :
        lookup (codes "storage_key") item
        ≡ some
            (or_value (recorded (dir.sidecar stem) (codes "storage_key")) (Value.text (mp4 stem)))

  -- one entry for each stem, in order
  abbrev pub Lists : Recordings J → List Text → List (Dict Text (Value J)) → Type 0
  Lists dir [] [] = Unit
  Lists dir (stem ∷ stems) (item ∷ items) = IsEntry dir stem item × Lists dir stems items
  Lists dir stems items = ⊥

  lookup-set_default :
      (k j : Text) (v : Value J) (d : Dict Text (Value J))
      → lookup j (set_default k v d)
        ≡ (if k == j then some (or_value (lookup k d) v) else lookup j d)
  unfolding set_default contains
  lookup-set_default k j v d = ground (arith, lookup-insert k j v d, text_beq_iff k j)

  complete_meta-IsEntry :
      (dir : Recordings J) (stem : Text) (meta : Dict Text (Value J))
      → ((key : Text) → lookup key meta ≡ recorded (dir.sidecar stem) key)
      → IsEntry dir stem (complete_meta stem (dir.size stem) meta)
  unfolding complete_meta
  complete_meta-IsEntry dir stem meta h =
      let url = codes "video_url" in
      let size = codes "size_bytes" in
      let id = codes "recording_id" in
      let key = codes "storage_key" in
      let with_id = set_default id (Value.text stem) meta in
      let with_key = set_default key (Value.text (mp4 stem)) with_id in
      let sized = insert size (size_value (dir.size stem)) with_key in
      let link = Value.text (video_url stem) in
      record {
        video = lookup-insert url url link sized;
        size =
            lookup-insert url size link sized
            ∙ lookup-insert size size (size_value (dir.size stem)) with_key;
        identifier =
            lookup-insert url id link sized
            ∙ lookup-insert size id (size_value (dir.size stem)) with_key
            ∙ lookup-set_default key id (Value.text (mp4 stem)) with_id
            ∙ lookup-set_default id id (Value.text stem) meta
            ∙ ap (λ o. some (or_value o (Value.text stem))) (h id);
        storage =
            lookup-insert url key link sized
            ∙ lookup-insert size key (size_value (dir.size stem)) with_key
            ∙ lookup-set_default key key (Value.text (mp4 stem)) with_id
            ∙ ap (λ o. some (or_value o (Value.text (mp4 stem))))
                (lookup-set_default id key (Value.text stem) meta ∙ h key);
      }

  read_meta_lem :
      (s : Sidecar J)
      → IsReadable s
      → (meta : Dict Text (Value J)) × (read_meta s ≡ ok meta)
        × ((key : Text) → lookup key meta ≡ recorded s key)
  unfolding read_meta lookup
  read_meta_lem Sidecar.absent h = ([], refl, λ key. refl)
  read_meta_lem Sidecar.unreadable h = ([], refl, λ key. refl)
  read_meta_lem (Sidecar.failing e) h = elim h [ ]
  read_meta_lem (Sidecar.object meta) h = (meta, refl, λ key. refl)

  list_each_lem :
      (dir : Recordings J) (stems : List Text)
      → All (λ stem. IsReadable (dir.sidecar stem)) stems
      → (items : List (Dict Text (Value J))) × (list_each dir stems ≡ ok items)
        × Lists dir stems items
  unfolding list_each
  list_each_lem dir [] h = ([], refl, tt)
  list_each_lem dir (stem ∷ stems) h =
      let (meta, read, says) = read_meta_lem (dir.sidecar stem) h.0 in
      let (items, rest, lists) = list_each_lem dir stems h.1 in
      (
        complete_meta stem (dir.size stem) meta ∷ items,
        rw (read, rest) refl,
        (complete_meta-IsEntry dir stem meta says, lists),
      )

  -- If the directory exists and no sidecar raises an exception that the server does not take, every
  -- recording of the directory is listed, once, in descending order of the file names; each entry
  -- has the video and the size of its file, and the identifier and storage key of its sidecar or, where
  -- that has none, of its file name.
  pub list_recordings_lem :
      (dir : Recordings J)
      → dir.exists ≡ true
      → ((stem : Text) → IsReadable (dir.sidecar stem))
      → (stems : List Text) × (items : List (Dict Text (Value J))) × (list_recordings dir
          ≡ ok items)
        × Perm stems dir.stems
        × IsNewestFirst stems
        × Lists dir stems items
  unfolding list_recordings
  list_recordings_lem dir there readable =
      let stems = newest_first dir.stems in
      let (items, listed, lists) = list_each_lem dir stems (All-intro stems readable) in
      (
        stems,
        items,
        ap (λ (b : Bool). if b then list_each dir stems else ok []) there ∙ listed,
        newest_first-perm dir.stems,
        newest_first-IsNewestFirst dir.stems,
        lists,
      )
