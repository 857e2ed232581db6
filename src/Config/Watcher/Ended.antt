-- ===== src/Config/Watcher/Ended.antt =====
-- The end of the watcher: only `FileNotFoundError` is taken in the loop.
use chrome_live.Base.{ℕ, true, none, some, List, [], ◌∷◌, ◌≡◌, ◌⊎◌, refl, ap, ◌∙◌}
use chrome_live.Base.Text.{Text}
use chrome_live.Base.Exec.{Exception, value_error, err}
use chrome_live.Config.{TextLib, get, read_lines, file_lines, File, from_file}
use chrome_live.Config.Defaults.{from_file_errs}
use chrome_live.Config.Watcher.{
  Stat, Poll, Watcher, reload, look_at, recover, is_new, settle, turn, polls,
}

module _ (lib : TextLib) (resolve : Text → Text) where
  polls_ended :
      (e : Exception) (ps : List Poll) (w : Watcher) → w.ended ≡ some e → polls lib resolve ps w ≡ w
  unfolding polls turn
  polls_ended e [] w h = refl
  polls_ended e (p ∷ ps) w h = simp h (polls_ended e ps w h)

  settle_raises :
      (p : Poll) (m : ℕ) (w : Watcher)
      → is_new m w.last_mtime ≡ true
      → from_file lib p.file ≡ err value_error
      → settle lib resolve p (look_at lib resolve (Stat.modified m) p w)
        ≡ record w { last_mtime = some m; ended = some value_error }
  unfolding settle look_at recover reload
  settle_raises p m w new bad = simp (new, bad) refl

  -- When a running watcher finds the file changed and one of its ports is no number, it ends with a
  -- `ValueError`: whatever the later polls would see, the configuration and the logger stay as they
  -- were.
  pub bad_port_ends :
      (p : Poll) (text : Text) (m : ℕ) (ps : List Poll) (w : Watcher)
      → w.ended ≡ none
      → p.stat ≡ Stat.modified m
      → is_new m w.last_mtime ≡ true
      → p.file ≡ File.content text
      → (lib.to_int (get "CDP_PORT" "9222" (read_lines (file_lines text) [])) ≡ none)
        ⊎ (lib.to_int (get "BROWSER_TRACE_PORT" "8088" (read_lines (file_lines text) [])) ≡ none)
      → polls lib resolve (p ∷ ps) w ≡ record w { last_mtime = some m; ended = some value_error }
  unfolding polls turn
  bad_port_ends p text m ps w running stat new file bad =
      let raises : from_file lib p.file ≡ err value_error =
        ap (from_file lib) file ∙ (from_file_errs lib text).1 bad in
      ap (λ e. polls lib resolve ps (turn lib resolve e p w)) running
      ∙ ap (λ s. polls lib resolve ps (settle lib resolve p (look_at lib resolve s p w))) stat
      ∙ ap (polls lib resolve ps) (settle_raises p m w new raises)
      ∙ polls_ended value_error ps (record w { last_mtime = some m; ended = some value_error }) refl
