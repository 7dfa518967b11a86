-- ===== src/Odu/Covered.antt =====
-- Which instances of the aggregation have a session, as the dictionary and the aggregation change.
use sim_o1_ofhmp_interfaces.Prelude.{
  ℕ, String, none, some, true, false, List, [], ◌∷◌, ◌≡◌, ◌≢◌, sym, ◌∙◌, ap, arith, ◌⊎◌, inl, inr,
  Bool-cases, eq_iff, nat_beq, nat_beq_iff, if◌then◌else◌, ◌==◌, string_eq,
}
use sim_o1_ofhmp_interfaces.Prelude.Table.{Table, find, put, del, find-put, find-del}
use sim_o1_ofhmp_interfaces.Odu.{Active, is_in, merged, without}

is_in-merged :
    (x y : String) (l : List String) → is_in x (merged y l) ≡ true → (y ≡ x) ⊎ (is_in x l ≡ true)
unfolding merged
is_in-merged x y l h = ground (arith, eq_iff y x)

pub is_in-without :
    (x y : String) (l : List String) → is_in x (without y l) ≡ (if y == x then false else is_in x l)
unfolding without
is_in-without x y [] = ground arith
is_in-without x y (z ∷ l) = ground (arith, eq_iff z x, eq_iff z y, eq_iff y x, is_in-without x y l)

-- Every instance of the aggregation has a session of its host name.
abbrev pub Covers : Table Active → List String → Type 0
Covers t l =
    (x : String)
    → is_in x l ≡ true
    → (k : ℕ) × (a : Active) × (find k t ≡ some a) × (a.hostname ≡ x)

pub merged-Covers :
    (t : Table Active) (k : ℕ) (a : Active) (l : List String)
    → find k t ≡ some a
    → Covers t l
    → Covers t (merged a.hostname l)
merged-Covers t k a l e h x m = elim (is_in-merged x a.hostname l m) [
  | inl same ↦ (k, a, e, same)
  | inr old ↦ h x old
]

pub Covers-put :
    (t : Table Active) (k : ℕ) (a : Active) (l : List String)
    → find k t ≡ none
    → Covers t l
    → Covers (put k a t) l
Covers-put t k a l e h x m =
    let (j, b, f, same) = h x m in
    (j, b, find-put k j a t ∙ by_test j b f (Bool-cases (nat_beq k j)), same)
  where
    by_test :
        (j : ℕ) (b : Active)
        → find j t ≡ some b
        → (nat_beq k j ≡ true) ⊎ (nat_beq k j ≡ false)
        → (if nat_beq k j then some a else find j t) ≡ some b
    by_test j b f (inl at_k) = let at_j : k ≡ j = (nat_beq_iff k j).0 at_k in cc
    by_test j b f (inr apart) = rw apart f

pub Covers-del :
    (t : Table Active) (k : ℕ) (a : Active) (l : List String)
    → find k t ≡ some a
    → Covers t l
    → Covers (del k t) (without a.hostname l)
Covers-del t k a l e h x m =
    let (j, b, f, same) = h x was in
    (j, b, find-del k j t ∙ by_test j b f same (Bool-cases (nat_beq k j)), same)
  where
    was : is_in x l ≡ true
    was = ground (arith, is_in-without x a.hostname l)

    other : a.hostname ≢ x
    other = ground (arith, is_in-without x a.hostname l, eq_iff a.hostname x)

    by_test :
        (j : ℕ) (b : Active)
        → find j t ≡ some b
        → b.hostname ≡ x
        → (nat_beq k j ≡ true) ⊎ (nat_beq k j ≡ false)
        → (if nat_beq k j then none else find j t) ≡ some b
    by_test j b f same (inl at_k) =
        let at_j : k ≡ j = (nat_beq_iff k j).0 at_k in
        let known : b ≡ a = cc in absurd (other (ap (λ y. y.hostname) (sym known) ∙ same))
    by_test j b f same (inr apart) = rw apart f
