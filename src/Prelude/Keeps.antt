-- ===== src/Prelude/Keeps.antt =====
-- Invariants of actions: one rule for each way to build an action.
use mathlib.Core.Path.{◌≡◌, refl}
use sim_o1_ofhmp_interfaces.Prelude.Result.{Result, ok, err}
use sim_o1_ofhmp_interfaces.Prelude.Exec.{Exec, lift, continue, ◌>>=◌}

-- The action keeps the property, whether it returns or raises.
abbrev pub Keeps : {S A : Type 0} → (S → Type 0) → Exec S A → Type 0
Keeps {S} P m = (s : S) → P s → P (m s).1

module _ {S A B : Type 0} (P : S → Type 0) where
  pub keeps_continue :
      (got : Result A) (next : A → Exec S B) (s : S)
      → P s
      → ((a : A) → got ≡ ok a → Keeps P (next a))
      → P (continue got next s).1
  keeps_continue (err e) next s now later = now
  keeps_continue (ok a) next s now later = later a refl s now

  pub keeps_lift :
      (got : Result A) (next : A → Exec S B)
      → ((a : A) → got ≡ ok a → Keeps P (next a))
      → Keeps P (lift got >>= next)
  keeps_lift got next later s now = keeps_continue got next s now later

  pub keeps_bind :
      (first : Exec S A) (next : A → Exec S B)
      → Keeps P first
      → ((a : A) → Keeps P (next a))
      → Keeps P (first >>= next)
  keeps_bind first next kept later s now =
      keeps_continue (first s).0 next (first s).1 (kept s now) (λ a _. later a)
