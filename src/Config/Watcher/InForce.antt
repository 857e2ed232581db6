-- ===== src/Config/Watcher/InForce.antt =====
-- Which configuration is in force, as an abstract function of what the polls have seen.
use chrome_live.Base.{
  ℕ, false, Option, none, some, List, [], ◌∷◌, ◌≡◌, refl, sym, ap, ◌∙◌, All, arith, Bool-cases, inl,
  inr,
}
use mathlib.Core.Path.{subst}
use chrome_live.Base.Exec.{ok}
use chrome_live.Base.Text.{Text}
use chrome_live.Logs.{Handler}
use chrome_live.Config.Applying.{good_disk}
use chrome_live.Config.Applying.Applied.{IsApplied, apply_config-IsApplied}
use chrome_live.Config.{TextLib, Config, default_config, from_file}
use chrome_live.Config.Watcher.{
  Stat, Poll, Watcher, apply, reload, look_at, revert, recover, is_new, settle, turn, polls,
}

-- A poll that can be followed: `disk` tells the configuration that the file has at each of its
-- modification times, and nothing raises but the missing file.
abbrev pub FollowsAt : TextLib → (ℕ → Config) → Stat → Poll → Type 0
FollowsAt lib disk Stat.no_file p = p.reverting ≡ good_disk
FollowsAt lib disk Stat.refused p = ⊥
FollowsAt lib disk (Stat.modified m) p =
    (from_file lib p.file ≡ ok (disk m)) × (p.applying ≡ good_disk)

abbrev pub Follows : TextLib → (ℕ → Config) → Poll → Type 0
Follows lib disk p = FollowsAt lib disk p.stat p

-- What was seen of the file: nothing yet, the file at a time, or that it was removed.
pub data View : Type 0 where
  unseen removed : View
  present : ℕ → View

-- The last poll decides; a file that is missing from the start stays unseen.
abbrev pub observe : View → Stat → View
observe v (Stat.modified m) = View.present m
observe v Stat.refused = v
observe View.unseen Stat.no_file = View.unseen
observe View.removed Stat.no_file = View.removed
observe (View.present m) Stat.no_file = View.removed

abbrev pub view_from : View → List Poll → View
view_from v [] = v
view_from v (p ∷ rest) = view_from (observe v p.stat) rest

-- The configuration that a view calls for; `first` is the one that the watcher started with.
abbrev pub in_force : (ℕ → Config) → Config → View → Config
in_force disk first View.unseen = first
in_force disk first View.removed = default_config
in_force disk first (View.present m) = disk m

abbrev pub mtime_of : View → Option ℕ
mtime_of View.unseen = none
mtime_of View.removed = none
mtime_of (View.present m) = some m

unchanged_view : (m : ℕ) (v : View) → is_new m (mtime_of v) ≡ false → v ≡ View.present m
unchanged_view m View.unseen h = cc
unchanged_view m View.removed h = cc
unchanged_view m (View.present n) h = ground (arith, h)

module _ (lib : TextLib) (resolve : Text → Text) (others : List Handler) (disk : ℕ → Config)
    (first : Config) where
  -- The watcher runs in a view, and the configuration that the view calls for is applied.
  pub record Implements (v : View) (w : Watcher) : Type 0 where
    pub running : w.ended ≡ none
    pub applied : IsApplied lib resolve others (in_force disk first v) w.app
    pub last : w.last_mtime ≡ mtime_of v

  reapply :
      (c d : Config) (w : Watcher) (mtime : Option ℕ)
      → w.ended ≡ none
      → IsApplied lib resolve others c w.app
      → let (r, w') = apply lib resolve d good_disk (record w { last_mtime = mtime }) in
        (r ≡ ok tt)
        × (w'.ended ≡ none)
        × IsApplied lib resolve others d w'.app
        × (w'.last_mtime ≡ mtime)
  unfolding apply
  reapply c d w mtime running a =
      let (r, applied) = apply_config-IsApplied lib resolve others d w.app a.numbered a.unmarked in
      (r, running, applied, refl)

  settle-Implements :
      (s : Stat) (v : View) (p : Poll) (w : Watcher)
      → FollowsAt lib disk s p
      → Implements v w
      → Implements (observe v s) (settle lib resolve p (look_at lib resolve s p w))
  unfolding settle look_at recover revert reload
  settle-Implements Stat.refused v p w f i = elim f [ ]
  settle-Implements Stat.no_file View.unseen p w f i = simp (i.last) i
  settle-Implements Stat.no_file View.removed p w f i = simp (i.last) i
  settle-Implements Stat.no_file (View.present n) p w f i =
      let (r, running, applied, last) =
        reapply (disk n) default_config w none i.running i.applied in
      simp (i.last, f) (simp (r) (record { running = running; applied = applied; last = last }))
  settle-Implements (Stat.modified m) v p w f i = elim (Bool-cases (is_new m w.last_mtime)) [
    | inl new ↦
        let (r, running, applied, last) =
          reapply (in_force disk first v) (disk m) w (some m) i.running i.applied in
        simp (new, f.0, f.1)
          (simp (r) (record { running = running; applied = applied; last = last }))
    | inr old ↦
        simp old
          (subst (λ x. Implements x w) (unchanged_view m v (sym (ap (is_new m) i.last) ∙ old)) i)
  ]

  turn-Implements :
      (v : View) (p : Poll) (w : Watcher)
      → Follows lib disk p
      → Implements v w
      → Implements (observe v p.stat) (turn lib resolve w.ended p w)
  unfolding turn
  turn-Implements v p w f i = simp (i.running) (settle-Implements p.stat v p w f i)

  -- The watcher implements the abstract one. From a watcher in a view, after any polls at which the
  -- file is missing or holds, at each modification time, one configuration that can be read, while
  -- directories can be made and log files opened: the watcher still runs, it knows the file's time,
  -- and the configuration that the view of the file calls for is in force: log records and
  -- recordings go where that configuration says.
  pub polls-Implements :
      (ps : List Poll) (v : View) (w : Watcher)
      → All (Follows lib disk) ps
      → Implements v w
      → Implements (view_from v ps) (polls lib resolve ps w)
  unfolding polls
  polls-Implements [] v w f i = i
  polls-Implements (p ∷ ps) v w f i =
      polls-Implements ps (observe v p.stat) (turn lib resolve w.ended p w) f.1
        (turn-Implements v p w f.0 i)
