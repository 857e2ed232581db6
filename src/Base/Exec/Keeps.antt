-- ===== src/Base/Exec/Keeps.antt =====
-- Invariants of statements, with a rule for each way to build one. An invariant that a statement
-- keeps holds afterwards whether it returned or raised.
use mathlib.Core.Bool.{Bool, true, false}
use chrome_live.Base.Tests.{if◌then◌else◌}
use chrome_live.Base.Exec.{
  Exec, Result, ok, err, Exception, pure, raise, lift, gets, modify_state, modify_if, continue_with,
  ◌>>=◌,
}

pub record Keeps {ℓ} {S A : Type 0} (P : S → Type ℓ) (m : Exec S A) : Type ℓ where
  pub after : (s : S) → P s → P (m s).1

module _ {ℓ} {S A : Type 0} {P : S → Type ℓ} where
  pub Keeps-gets : (f : S → A) → Keeps P (gets f)
  Keeps-gets f = record { after = λ s h. h }

  pub Keeps-lift : (r : Result A) → Keeps P (lift r)
  Keeps-lift r = record { after = λ s h. h }

  pub Keeps-pure : (a : A) → Keeps P (pure a)
  Keeps-pure a = record { after = λ s h. h }

  pub Keeps-raise : (e : Exception) → Keeps P (raise {A = A} e)
  Keeps-raise e = record { after = λ s h. h }

  pub Keeps-if : (b : Bool) (m n : Exec S A) → Keeps P m → Keeps P n → Keeps P (if b then m else n)
  Keeps-if true m n hm hn = hm
  Keeps-if false m n hm hn = hn

module _ {ℓ} {S : Type 0} {P : S → Type ℓ} where
  pub Keeps-modify : (f : S → S) → ((s : S) → P s → P (f s)) → Keeps P (modify_state f)
  Keeps-modify f h = record { after = h }

  pub Keeps-modify_if :
      (test : Bool) (f : S → S) → ((s : S) → P s → P (f s)) → Keeps P (modify_if test f)
  Keeps-modify_if true f h = record { after = h }
  Keeps-modify_if false f h = record { after = λ s p. p }

module _ {ℓ} {S A B : Type 0} {P : S → Type ℓ} where
  continue-Keeps :
      (r : Result A) (f : A → Exec S B) (s : S)
      → P s
      → ((a : A) → Keeps P (f a))
      → P (continue_with r f s).1
  continue-Keeps (ok a) f s h hf = (hf a).after s h
  continue-Keeps (err e) f s h hf = h

  pub Keeps-bind :
      (m : Exec S A) (f : A → Exec S B) → Keeps P m → ((a : A) → Keeps P (f a)) → Keeps P (m >>= f)
  Keeps-bind m f hm hf = record {
    after = λ s h. let (r, s') = m s in continue-Keeps r f s' (hm.after s h) hf;
  }

pub ruleset keeps_rules =
    (Keeps-pure, Keeps-raise, Keeps-lift, Keeps-gets, Keeps-if, Keeps-bind, Keeps-modify)
