-- ===== src/DictFactory/Plant.antt =====
-- The path of `update_key` and `delete_key`: both read the object above the last key, change it, and
-- leave the changed object in its place. `plant` is that change of place, by itself.
use sim_o1_ofhmp_interfaces.Prelude.{
  ℕ, zero, suc, List, [], ◌∷◌, ◌++◌, false, none, some, ◌≡◌, ◌≢◌, refl, ap, arith, ◌⊎◌, inl, inr,
  Option-cases,
}
use sim_o1_ofhmp_interfaces.Value.{
  Key, name, index, negsuc, Value, null, list, dict, Items, nil, cons, length, get_elem?, set,
  place, at, get_path, key_eq,
}
use sim_o1_ofhmp_interfaces.Value.Fields.{
  key_eq_iff, key_eq_refl, get-put, get_elem?-set_self, length-set, place-lt,
}
use sim_o1_ofhmp_interfaces.DictFactory.{replace}

-- Two keys that never name the same slot of an object.
abbrev pub KeysApart : Key → Key → Type 0
KeysApart (index i) (negsuc j) = ⊥
KeysApart (negsuc i) (index j) = ⊥
KeysApart k j = k ≢ j

-- Two paths that part at some key.
abbrev pub Diverge : List Key → List Key → Type 0
Diverge (k ∷ p) (j ∷ q) = KeysApart k j ⊎ ((k ≡ j) × Diverge p q)
Diverge _ _ = ⊥

-- The value `v` with `w` in the place of what stands at the path.
unfoldable pub plant : Value → List Key → Value → Value
unfolding replace
plant v [] w = w
plant v (k ∷ p) w = elim (at v k) [ none ↦ v | some u ↦ replace v k (plant u p w) ]

pub at-set :
    (xs : Items) (k : Key) (i : ℕ) (v : Value)
    → place (length xs) k ≡ some i
    → at (list (set xs i v)) k ≡ some v
unfolding at
at-set xs k i v h =
    ground (arith, length-set xs i v, get_elem?-set_self xs i v (place-lt (length xs) k i h))

-- A slot that was found holds what is put into it.
pub at-replace :
    (v : Value) (k : Key) (w x : Value) → at v k ≡ some w → at (replace v k x) k ≡ some x
unfolding at replace
at-replace (list xs) k w x h = elim (Option-cases (place (length xs) k)) [
  | inl e ↦ cc (e, h)
  | inr (i, e) ↦ rw (e, replace) (at-set xs k i x e)
]
at-replace (dict d) k w x h = simp (get-put, key_eq_refl)
at-replace null k w x h = cc
at-replace _ k w x h = cc

get_elem?-set_ne :
    (xs : Items) (i j : ℕ) (v : Value) → i ≢ j → get_elem? (set xs i v) j ≡ get_elem? xs j
get_elem?-set_ne nil i j v h = refl
get_elem?-set_ne (cons x xs) zero zero v h = absurd (h refl)
get_elem?-set_ne (cons x xs) zero (suc j) v h = refl
get_elem?-set_ne (cons x xs) (suc i) zero v h = refl
get_elem?-set_ne (cons x xs) (suc i) (suc j) v h = get_elem?-set_ne xs i j v (λ e. h (ap suc e))

place-ne :
    (n : ℕ) (k j : Key) (a b : ℕ) → KeysApart k j → place n k ≡ some a → place n j ≡ some b → a ≢ b
unfolding place
place-ne n (index i) (index j) a b h p q e = h (ap index (ground arith))
place-ne n (negsuc i) (negsuc j) a b h p q e = h (ap negsuc (ground arith))
place-ne n (index i) (negsuc j) a b h p q e = h
place-ne n (negsuc i) (index j) a b h p q e = h
place-ne n (name i) j a b h p q e = cc
place-ne n (index i) (name j) a b h p q e = cc
place-ne n (negsuc i) (name j) a b h p q e = cc

pub KeysApart-ne : (k j : Key) → KeysApart k j → key_eq k j ≡ false
KeysApart-ne (index i) (negsuc j) h = refl
KeysApart-ne (negsuc i) (index j) h = refl
KeysApart-ne (index i) (index j) h = ground (arith, key_eq_iff (index i) (index j))
KeysApart-ne (negsuc i) (negsuc j) h = ground (arith, key_eq_iff (negsuc i) (negsuc j))
KeysApart-ne (name i) (name j) h = ground (arith, key_eq_iff (name i) (name j))
KeysApart-ne (name i) (index j) h = refl
KeysApart-ne (name i) (negsuc j) h = refl
KeysApart-ne (index i) (name j) h = refl
KeysApart-ne (negsuc i) (name j) h = refl

pub at-set_apart :
    (xs : Items) (k j : Key) (i : ℕ) (x : Value)
    → place (length xs) k ≡ some i
    → KeysApart k j
    → at (list (set xs i x)) j ≡ at (list xs) j
unfolding at
at-set_apart xs k j i x e h = elim (Option-cases (place (length xs) j)) [
  | inl f ↦ ground (arith, length-set xs i x)
  | inr (b, f) ↦
      ground (arith, length-set xs i x, get_elem?-set_ne xs i b x (place-ne _ k j i b h e f))
]

at-replace_apart :
    (v : Value) (k j : Key) (x : Value) → KeysApart k j → at (replace v k x) j ≡ at v j
unfolding at replace
at-replace_apart (list xs) k j x h = elim (Option-cases (place (length xs) k)) [
  | inl e ↦ rw (e, replace) refl
  | inr (i, e) ↦ rw (e, replace) (at-set_apart xs k j i x e h)
]
at-replace_apart (dict d) k j x h = rw (get-put d k j x) (rw (KeysApart-ne k j h))
at-replace_apart null k j x h = refl
at-replace_apart _ k j x h = refl

pub get_path-append :
    (v : Value) (p q : List Key) {w : Value}
    → get_path v p ≡ some w
    → get_path v (p ++ q) ≡ get_path w q
unfolding get_path
get_path-append v [] q h = ground arith
get_path-append v (k ∷ p) q {w} h = elim (Option-cases (at v k)) [
  | inl e ↦ cc (e, h)
  | inr (u, e) ↦ rw (e, get_path) (get_path-append u p q (rw (e, get_path) at h))
]

-- What was planted stands at its path.
pub get_path-plant :
    (v : Value) (p : List Key) (w : Value) {u : Value}
    → get_path v p ≡ some u
    → get_path (plant v p w) p ≡ some w
unfolding get_path plant
get_path-plant v [] w h = refl
get_path-plant v (k ∷ p) w h = elim (Option-cases (at v k)) [
  | inl e ↦ cc (e, h)
  | inr (u, e) ↦
      ground (arith, at-replace v k u (plant u p w) e, get_path-plant u p w (rw (e, get_path) at h))
]

-- What stands at a path that parts from it is as before.
pub get_path-plant-Diverge :
    (v : Value) (p q : List Key) (w : Value) → Diverge p q → get_path (plant v p w) q ≡ get_path v q
unfolding get_path plant
get_path-plant-Diverge v (k ∷ p) (j ∷ q) w (inl h) = elim (Option-cases (at v k)) [
  | inl e ↦ rw (e, plant) refl
  | inr (u, e) ↦ ground (arith, at-replace_apart v k j (plant u p w) h)
]
get_path-plant-Diverge v (k ∷ p) (j ∷ q) w (inr (same, h)) = elim (Option-cases (at v k)) [
  | inl e ↦ rw (e, plant) refl
  | inr (u, e) ↦ ground (arith, at-replace v k u (plant u p w) e, get_path-plant-Diverge u p q w h)
]
get_path-plant-Diverge v [] q w h = elim h [ ]
get_path-plant-Diverge v (k ∷ p) [] w h = elim h [ ]
