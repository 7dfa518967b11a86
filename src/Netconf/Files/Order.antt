-- ===== src/Netconf/Files/Order.antt =====
-- The order of texts, and that sorting depends only on what is sorted.
use mathlib.Core.List.{Permᴰ}
use mathlib.Core.List.Permᴰ
use text.Mathlib.TextEquality.{codes_equal}
use sim_o1_ofhmp_interfaces.Prelude.{
  String, Bool, true, false, List, [], ◌∷◌, ◌≡◌, refl, ap, ◌∙◌, arith, ◌⊎◌, inl, inr, Bool-cases,
  All, if◌then◌else◌,
}
use sim_o1_ofhmp_interfaces.Netconf.Files.{str_le, insert, sorted}

pub str_le-total : (x y : String) → (str_le x y ≡ true) ⊎ (str_le y x ≡ true)
unfolding str_le
str_le-total String.[] y = inl refl
str_le-total (String.◌∷◌ c s) String.[] = inr refl
str_le-total (String.◌∷◌ c s) (String.◌∷◌ d t) = ground (arith, str_le-total s t)

pub str_le-antisym : (x y : String) → str_le x y ≡ true → str_le y x ≡ true → x ≡ y
unfolding str_le
str_le-antisym String.[] String.[] h k = refl
str_le-antisym String.[] (String.◌∷◌ d t) h k = cc
str_le-antisym (String.◌∷◌ c s) String.[] h k = cc
str_le-antisym (String.◌∷◌ c s) (String.◌∷◌ d t) h k =
    ground (arith, str_le-antisym s t, codes_equal c d)

pub str_le_trans : (x y z : String) → str_le x y ≡ true → str_le y z ≡ true → str_le x z ≡ true
unfolding str_le
str_le_trans String.[] y z h k = refl
str_le_trans (String.◌∷◌ c s) String.[] z h k = cc
str_le_trans (String.◌∷◌ c s) (String.◌∷◌ d t) String.[] h k = cc
str_le_trans (String.◌∷◌ c s) (String.◌∷◌ d t) (String.◌∷◌ e u) h k =
    ground (arith, str_le_trans s t u)

insert_comm : (x y : String) (l : List String) → insert x (insert y l) ≡ insert y (insert x l)
unfolding insert
insert_comm x y [] = ground (arith, str_le-total x y, str_le-antisym x y)
insert_comm x y (z ∷ l) = elim (str_le-total x y) [
  | inl h ↦ ground (
    arith,
    h,
    insert_comm x y l,
    str_le_trans x y z h,
    str_le-total x z,
    str_le-total y z,
    str_le-antisym x y h,
    str_le_trans y x z,
  )
  | inr h ↦ ground (
    arith,
    h,
    insert_comm x y l,
    str_le_trans y x z h,
    str_le-total x z,
    str_le-total y z,
    str_le-antisym y x h,
    str_le_trans x y z,
  )
]

-- What is sorted does not depend on the order in which it came.
pub sorted-Permᴰ : (l m : List String) → Permᴰ l m → sorted l ≡ sorted m
unfolding sorted
sorted-Permᴰ _ _ Permᴰ.nil = refl
sorted-Permᴰ _ _ (Permᴰ.cons {a} {b} {l₁} {l₂} e p) =
    ap (λ x. insert x (sorted l₁)) e ∙ ap (insert b) (sorted-Permᴰ l₁ l₂ p)
sorted-Permᴰ _ _ (Permᴰ.swap {a} {b} {a'} {b'} {l} e f) =
    ap (λ x. insert x (insert b (sorted l))) e
    ∙ ap (λ x. insert b' (insert x (sorted l))) f
    ∙ insert_comm b' a' (sorted l)
sorted-Permᴰ _ _ (Permᴰ.trans {l₁} {l₂} {l₃} p q) = sorted-Permᴰ l₁ l₂ p ∙ sorted-Permᴰ l₂ l₃ q

-- Sorting keeps what there is.
insert-Permᴰ : (x : String) (l : List String) → Permᴰ (insert x l) (x ∷ l)
unfolding insert
insert-Permᴰ x [] = Permᴰ.refl (x ∷ [])
insert-Permᴰ x (y ∷ l) = by_test (str_le x y) (insert-Permᴰ x l)
  where
    by_test :
        (b : Bool)
        → Permᴰ (insert x l) (x ∷ l)
        → Permᴰ (if b then x ∷ y ∷ l else y ∷ insert x l) (x ∷ y ∷ l)
    by_test true p = Permᴰ.refl (x ∷ y ∷ l)
    by_test false p = Permᴰ.trans (Permᴰ.cons refl p) (Permᴰ.swap refl refl)

pub sorted-keeps : (l : List String) → Permᴰ (sorted l) l
unfolding sorted
sorted-keeps [] = Permᴰ.nil
sorted-keeps (x ∷ l) = Permᴰ.trans (insert-Permᴰ x (sorted l)) (Permᴰ.cons refl (sorted-keeps l))

-- Each text is at most every later one.
abbrev pub IsSorted : List String → Type 0
IsSorted [] = Unit {0}
IsSorted (x ∷ l) = All (λ y. str_le x y ≡ true) l × IsSorted l

insert-All :
    (z x : String) (l : List String)
    → str_le z x ≡ true
    → All (λ y. str_le z y ≡ true) l
    → All (λ y. str_le z y ≡ true) (insert x l)
unfolding insert
insert-All z x [] h k = (h, tt)
insert-All z x (y ∷ l) h (k, ks) = by_test (str_le x y) (insert-All z x l h ks)
  where
    by_test :
        (b : Bool)
        → All (λ y. str_le z y ≡ true) (insert x l)
        → All (λ y. str_le z y ≡ true) (if b then x ∷ y ∷ l else y ∷ insert x l)
    by_test true p = (h, (k, ks))
    by_test false p = (k, p)

All-above :
    (x y : String) (l : List String)
    → str_le x y ≡ true
    → All (λ z. str_le y z ≡ true) l
    → All (λ z. str_le x z ≡ true) l
All-above x y [] h k = tt
All-above x y (z ∷ l) h (k, ks) = (str_le_trans x y z h k, All-above x y l h ks)

insert-IsSorted : (x : String) (l : List String) → IsSorted l → IsSorted (insert x l)
unfolding insert
insert-IsSorted x [] h = (tt, tt)
insert-IsSorted x (y ∷ l) (h, hs) = by_test (Bool-cases (str_le x y)) (insert-IsSorted x l hs)
  where
    by_test :
        (str_le x y ≡ true) ⊎ (str_le x y ≡ false)
        → IsSorted (insert x l)
        → IsSorted (if str_le x y then x ∷ y ∷ l else y ∷ insert x l)
    by_test (inl e) p = rw e ((e, All-above x y l e h), (h, hs))
    by_test (inr e) p = rw e (insert-All y x l (ground (arith, str_le-total x y)) h, p)

pub sorted-IsSorted : (l : List String) → IsSorted (sorted l)
unfolding sorted
sorted-IsSorted [] = tt
sorted-IsSorted (x ∷ l) = insert-IsSorted x (sorted l) (sorted-IsSorted l)
