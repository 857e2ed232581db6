-- ===== src/Config/Defaults.antt =====
-- What `from_file` gives for a missing file, and when it raises.
use chrome_live.Base.{Option, none, some, [], ◌≡◌, ◌↔◌, ◌⊎◌, inl, inr, refl, arith}
use chrome_live.Base.Int.{ℤ}
use chrome_live.Base.Text.{Text, codes, text_key}
use chrome_live.Base.Exec.{value_error, ok, err}
use chrome_live.Dict.{Dict, lookup}
use chrome_live.Config.{
  TextLib, default_config, get, build, from_values, read_lines, file_lines, File, from_file,
}

-- The library reads the texts of the default values: the ports as numbers, and the level is upper
-- case already.
pub record ReadsDefaults (lib : TextLib) : Type 0 where
  pub cdp_port : lib.to_int (codes "9222") ≡ some (ℤ.pos 9222)
  pub http_port : lib.to_int (codes "8088") ≡ some (ℤ.pos 8088)
  pub level : lib.upper (codes "INFO") ≡ codes "INFO"

module _ (lib : TextLib) where
  build_errs :
      (values : Dict Text Text) (a b : Option ℤ)
      → (build lib values a b ≡ err value_error) ↔ ((a ≡ none) ⊎ (b ≡ none))
  unfolding build
  build_errs values none b = (λ h. inl refl, λ h. refl)
  build_errs values (some a) none = (λ h. inr refl, λ h. refl)
  build_errs values (some a) (some b) = (λ h. absurd (cc), λ h. absurd (ground (arith, h)))

  -- A file that can be read raises a `ValueError` if and only if one of its two ports, or the default
  -- in its place, is no number.
  pub from_file_errs :
      (text : Text)
      → let values = read_lines (file_lines text) [] in
        (from_file lib (File.content text) ≡ err value_error) ↔ (
          (lib.to_int (get "CDP_PORT" "9222" values) ≡ none)
          ⊎ (lib.to_int (get "BROWSER_TRACE_PORT" "8088" values) ≡ none))
  unfolding from_file from_values
  from_file_errs text =
      let values = read_lines (file_lines text) [] in
      build_errs values (lib.to_int (get "CDP_PORT" "9222" values))
        (lib.to_int (get "BROWSER_TRACE_PORT" "8088" values))

  -- A missing file gives the same configuration as `Config()`.
  pub from_file_missing : ReadsDefaults lib → from_file lib File.missing ≡ ok default_config
  unfolding from_file from_values build get lookup default_config
  from_file_missing r = rw (r.cdp_port, r.http_port) (rw (build, r.level) refl)
