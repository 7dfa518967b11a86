-- ===== src/Prelude/Table.antt =====
-- Python's `dict` with numbers as keys, as the list of its entries.
use Prim.Native.Nat.{ℕ}
use mathlib.Core.Path.{◌≡◌, refl}
use mathlib.Core.List.{List, [], ◌∷◌}
use mathlib.Core.Option.{Option, none, some}
use native.Mathlib.Omega.{arith}
use sim_o1_ofhmp_interfaces.Prelude.Tests.{nat_beq, if◌then◌else◌}

abbrev pub Table {ℓ} : Type ℓ → Type ℓ
Table V = List (ℕ × V)

module _ {ℓ} {V : Type ℓ} where
  unfoldable pub find : ℕ → Table V → Option V
  find k [] = none
  find k ((j, v) ∷ t) = if nat_beq j k then some v else find k t

  unfoldable pub put : ℕ → V → Table V → Table V
  put k v [] = (k, v) ∷ []
  put k v ((j, w) ∷ t) = if nat_beq j k then (j, v) ∷ t else (j, w) ∷ put k v t

  unfoldable pub del : ℕ → Table V → Table V
  del k [] = []
  del k ((j, w) ∷ t) = let rest = del k t in if nat_beq j k then rest else (j, w) ∷ rest

  pub find-put :
      (k j : ℕ) (v : V) (t : Table V)
      → find j (put k v t) ≡ (if nat_beq k j then some v else find j t)
  unfolding find put
  find-put k j v [] = refl
  find-put k j v ((i, w) ∷ t) = ground (arith, find-put k j v t)

  pub find-del :
      (k j : ℕ) (t : Table V) → find j (del k t) ≡ (if nat_beq k j then none else find j t)
  unfolding find del
  find-del k j [] = ground arith
  find-del k j ((i, w) ∷ t) = ground (arith, find-del k j t)
