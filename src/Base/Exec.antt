-- ===== src/Base/Exec.antt =====
-- Statements that mutate objects and may raise. What was written before a raise stays written, so
-- the state comes back beside the exception too.
pub mod Keeps
use mathlib.Core.Path.{◌≡◌}
use mathlib.Core.Bool.{Bool}
use chrome_live.Base.Tests.{if◌then◌else◌}

-- The classes of exceptions that the program tells apart.
pub data Exception : Type 0 where
  value_error file_not_found os_error web_socket_error cdp_error timeout_error thumbnail_error
        other_error :
      Exception

pub data Result {ℓ} (A : Type ℓ) : Type ℓ where
  ok : A → Result A
  err : Exception → Result A

-- how a statement without a value ends
abbrev pub Outcome : Type 0
Outcome = Result {0} Unit

abbrev pub Exec : Type 0 → Type 0 → Type 0
Exec S A = S → Result A × S

module _ {S A : Type 0} where
  abbrev pub pure : A → Exec S A
  pure a s = (ok a, s)

  abbrev pub raise : Exception → Exec S A
  raise e s = (err e, s)

  abbrev pub lift : Result A → Exec S A
  lift r s = (r, s)

  abbrev pub gets : (S → A) → Exec S A
  gets f s = (ok (f s), s)

module _ {S : Type 0} where
  abbrev pub modify_state : (S → S) → Exec S Unit
  modify_state f s = (ok tt, f s)

  -- `if test: …`, for a change of the state
  abbrev pub modify_if : Bool → (S → S) → Exec S Unit
  modify_if test f s = (ok tt, if test then f s else s)

module _ {S A B : Type 0} where
  -- the rest of a block, on how the statement before it ended
  abbrev pub continue_with : Result A → (A → Exec S B) → Exec S B
  continue_with (ok a) f s = f a s
  continue_with (err e) f s = (err e, s)

  infixl 5 ◌>>=◌ ◌>>◌
  abbrev pub ◌>>=◌ : Exec S A → (A → Exec S B) → Exec S B
  ◌>>=◌ m f s = let (r, s') = m s in continue_with r f s'

  abbrev pub ◌>>◌ : Exec S A → Exec S B → Exec S B
  m >> n = m >>= λ _. n

  -- What follows a statement that has returned.
  pub bind_of_ok :
      (m : Exec S A) (f : A → Exec S B) (s : S) (a : A) → (m s).0 ≡ ok a → (m >>= f) s ≡ f a (m s).1
  bind_of_ok m f s a h = rw h

  -- What follows a statement that has raised does not run.
  pub bind_of_err :
      (m : Exec S A) (f : A → Exec S B) (s : S) (e : Exception)
      → (m s).0 ≡ err e
      → (m >>= f) s ≡ (err e, (m s).1)
  bind_of_err m f s e h = rw h
