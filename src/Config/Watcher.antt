-- ===== src/Config/Watcher.antt =====
-- `watch_config` and `watch_config_thread` of browser-trace/main.py, which differ only in how they
-- sleep. A poll carries what `getmtime` gives, what the file holds when it is read, and whether
-- the directories can be made and the log file opened.
pub mod InForce
pub mod Ended
mod Tests
use chrome_live.Base.{
  ℕ, Bool, true, false, not, Option, none, some, List, [], ◌∷◌, ◌++◌, nat_beq, if◌then◌else◌,
}
use chrome_live.Base.Exec.{
  Exception, file_not_found, os_error, Outcome, ok, err, Exec, pure, lift, modify_state, ◌>>=◌,
  ◌>>◌,
}
use chrome_live.Base.Text.{Text}
use chrome_live.Config.Applying.{App, Disk, apply_config}
use chrome_live.Config.{TextLib, Config, default_config, File, from_file}

-- `os.path.getmtime`: a `FileNotFoundError`, another `OSError`, or the time
pub data Stat : Type 0 where
  no_file refused : Stat
  modified : ℕ → Stat

pub record Poll : Type 0 where
  pub stat : Stat
  pub file : File
  pub applying : Disk
  pub reverting : Disk

-- `last_mtime`, what `apply_config` sets, and the exception that has ended the watcher.
pub record Watcher : Type 0 where
  pub last_mtime : Option ℕ
  pub app : App
  pub ended : Option Exception

abbrev pub started : App → Watcher
started app = record { last_mtime = none; app = app; ended = none }

-- `mtime != last_mtime`
abbrev pub is_new : ℕ → Option ℕ → Bool
is_new mtime none = true
is_new mtime (some last) = not (nat_beq mtime last)

abbrev pub end_with : Outcome → Watcher → Watcher
end_with (ok u) w = w
end_with (err e) w = record w { ended = some e }

module _ (lib : TextLib) (resolve : Text → Text) where
  unfoldable pub apply : Config → Disk → Exec Watcher Unit
  apply c disk w =
      let (r, app) = apply_config lib resolve c disk w.app in (r, record w { app = app })

  unfoldable pub reload : ℕ → Poll → Exec Watcher Unit
  unfolding apply
  reload mtime p =
      modify_state (λ w. record w { last_mtime = some mtime })
      >> (lift (from_file lib p.file) >>= λ c. apply c p.applying)

  -- the block under `try`
  unfoldable pub look_at : Stat → Poll → Exec Watcher Unit
  unfolding reload
  look_at Stat.no_file p w = (err file_not_found, w)
  look_at Stat.refused p w = (err os_error, w)
  look_at (Stat.modified mtime) p w =
      let changed = reload mtime p w in if is_new mtime w.last_mtime then changed else (ok tt, w)

  -- the block under `except FileNotFoundError`
  unfoldable pub revert : Option ℕ → Poll → Exec Watcher Unit
  unfolding apply
  revert none p = pure tt
  revert (some mtime) p =
      modify_state (λ w. record w { last_mtime = none }) >> apply default_config p.reverting

  unfoldable pub recover : Poll → Outcome → Exec Watcher Unit
  unfolding revert
  recover p (ok u) w = (ok u, w)
  recover p (err file_not_found) w = revert w.last_mtime p w
  recover p (err e) w = (err e, w)

  -- what follows the block under `try`
  unfoldable pub settle : Poll → Outcome × Watcher → Watcher
  unfolding recover
  settle p (seen, w) = let (r, w') = recover p seen w in end_with r w'

  -- One turn of the loop. An exception that the loop does not take ends the watcher.
  unfoldable pub turn : Option Exception → Poll → Watcher → Watcher
  unfolding look_at settle
  turn (some e) p w = w
  turn none p w = settle p (look_at p.stat p w)

  unfoldable pub polls : List Poll → Watcher → Watcher
  unfolding turn
  polls [] w = w
  polls (p ∷ rest) w = polls rest (turn w.ended p w)
