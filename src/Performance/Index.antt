-- ===== src/Performance/Index.antt =====
-- Which of the values a report has.
use native.Mathlib.Nat.{suc-mod, mod-eq_of_lt, mod-lt, mod_self}
use sim_o1_ofhmp_interfaces.Prelude.{
  ℕ, zero, suc, ◌+◌, ◌%◌, ◌<◌, String, Option, none, some, List, [], ◌∷◌, length, get_elem?, leb,
  ◌≡◌, refl, sym, ◌∙◌, ap, arith, if◌then◌else◌, string_eq, Bool-cases, inl, inr,
}
use sim_o1_ofhmp_interfaces.Prelude.Dict.{Dict}
use sim_o1_ofhmp_interfaces.Performance.Task.{Report, next_index}

-- Each report has its turn: the report number k, counted from 0, has the values number k, and after
-- the last of the values the first again.
unfoldable pub Cycled : List (Dict String) → List Report → Type 0
Cycled l [] = Unit
Cycled l (r ∷ rs) = (get_elem? l (length rs % length l) ≡ some r.values) × Cycled l rs

-- The index that the newest report was made with.
unfoldable pub index_after : List (Dict String) → List Report → Option ℕ
index_after l [] = none
index_after l (r ∷ rs) = some (length rs % length l)

pub elem_of : {A : Type 0} (l : List A) (i : ℕ) → i < length l → (x : A) × (get_elem? l i ≡ some x)
elem_of [] i h = absurd (ground arith)
elem_of (x ∷ l) zero h = (x, refl)
elem_of (x ∷ l) (suc i) h = elem_of l i (ground arith)

wrapped : (i n : ℕ) → i < n → (if leb n (i + 1) then 0 else i + 1) ≡ suc i % n
wrapped i n h = elim (Bool-cases (leb n (i + 1))) [
  | inl e ↦ rw e (sym (mod_self n) ∙ ap (λ k. k % n) (ground (arith, e)))
  | inr e ↦ rw e (ground arith ∙ sym (mod-eq_of_lt (ground (arith, e))))
]

pub next_index-after :
    (l : List (Dict String)) (f : List Report)
    → 0 < length l
    → next_index (index_after l f) (length l) ≡ length f % length l
unfolding next_index index_after
next_index-after l [] h = sym (mod-eq_of_lt h)
next_index-after l (r ∷ f) h =
    wrapped (length f % length l) (length l) (mod-lt (length f) h)
    ∙ sym (suc-mod (length f) (length l))
