-- ===== src/DictFactory/Loop.antt =====
-- The loop over `path[:-1]` in `update_key` and `delete_key`, for rounds that return what `v[k]` is.
use mathlib.Core.Option.{some-injective}
use sim_o1_ofhmp_interfaces.Prelude.{
  List, [], ◌∷◌, ◌++◌, Option, none, some, ◌≡◌, refl, ap, arith, ◌⊎◌, inl, inr, sym, ◌∙◌,
  Option-cases,
}
use sim_o1_ofhmp_interfaces.Prelude.Result.{Result, ok, err, key_error, index_error, ◌>>=◌}
use sim_o1_ofhmp_interfaces.Value.{Key, name, index, negsuc, Value, list, dict, at, get_path}
use sim_o1_ofhmp_interfaces.DictFactory.{replace, enter_update, enter_delete, within}
use sim_o1_ofhmp_interfaces.DictFactory.Plant.{
  KeysApart, Diverge, plant, get_path-append, get_path-plant, get_path-plant-Diverge, at-replace,
}

module _ (enter : Value → Key → Result Value) (leaf : Value → Option Key → Result Value) where
  within-cons :
      (v : Value) (j k : Key) (p : List Key)
      → within enter leaf v (j ∷ (p ++ k ∷ []))
        ≡ (enter v j >>= λ w. within enter leaf w (p ++ k ∷ []) >>= λ w'. ok (replace v j w'))
  unfolding within
  within-cons v j k [] = refl
  within-cons v j k (i ∷ p) = refl

  pub within-eq :
      ((v : Value) (k : Key) (w : Value) → at v k ≡ some w → enter v k ≡ ok w)
      → (v : Value) (p : List Key) (k : Key) {u : Value} → get_path v p ≡ some u
      → within enter leaf v (p ++ k ∷ []) ≡ (leaf u (some k) >>= λ w. ok (plant v p w))
  unfolding get_path within plant
  within-eq steps v [] k {u} h = ground (arith, some-injective v u h)
  within-eq steps v (j ∷ p) k {u} h = elim (Option-cases (at v j)) [
    | inl e ↦ cc (e, h)
    | inr (w, e) ↦
        ground
          (arith, within-cons v j k p, steps v j w e, within-eq steps w p k (rw (e, get_path) at h))
  ]

  -- Where the path above the last key does not resolve, some round raises.
  pub within-err :
      ((v : Value) (k : Key) (w : Value) → at v k ≡ some w → enter v k ≡ ok w)
      → ((v : Value) (k : Key)
          → at v k ≡ none
          → (enter v k ≡ err key_error) ⊎ (enter v k ≡ err index_error))
      → (v : Value) (p : List Key) (k : Key) → get_path v p ≡ none
      → (within enter leaf v (p ++ k ∷ []) ≡ err key_error)
        ⊎ (within enter leaf v (p ++ k ∷ []) ≡ err index_error)
  unfolding get_path
  within-err steps fails v [] k h = cc
  within-err steps fails v (j ∷ p) k h = elim (Option-cases (at v j)) [
    | inl e ↦ ground (arith, within-cons v j k p, fails v j e)
    | inr (w, e) ↦ ground (
      arith,
      within-cons v j k p,
      steps v j w e,
      within-err steps fails w p k (rw (e, get_path) at h),
    )
  ]

pub enter_update-ok : (v : Value) (k : Key) (w : Value) → at v k ≡ some w → enter_update v k ≡ ok w
unfolding enter_update at
enter_update-ok (list xs) (name a) w h = ground arith
enter_update-ok (list xs) (index a) w h = ground arith
enter_update-ok (list xs) (negsuc a) w h = ground arith
enter_update-ok (dict d) k w h = ground arith
enter_update-ok _ k w h = cc

pub enter_update-err :
    (v : Value) (k : Key)
    → at v k ≡ none
    → (enter_update v k ≡ err key_error) ⊎ (enter_update v k ≡ err index_error)
unfolding enter_update at
enter_update-err (list xs) (name a) h = inl refl
enter_update-err (list xs) (index a) h = ground arith
enter_update-err (list xs) (negsuc a) h = ground arith
enter_update-err (dict d) k h = ground arith
enter_update-err _ k h = inl refl

pub enter_delete-ok : (v : Value) (k : Key) (w : Value) → at v k ≡ some w → enter_delete v k ≡ ok w
unfolding enter_delete at
enter_delete-ok (list xs) k w h = ground arith
enter_delete-ok (dict d) k w h = ground arith
enter_delete-ok _ k w h = cc

pub enter_delete-err :
    (v : Value) (k : Key)
    → at v k ≡ none
    → (enter_delete v k ≡ err key_error) ⊎ (enter_delete v k ≡ err index_error)
unfolding enter_delete at
enter_delete-err (list xs) k h = ground arith
enter_delete-err (dict d) k h = ground arith
enter_delete-err _ k h = inl refl

-- A change in one slot of the object at a path is seen from no path that parts from the slot's.
pub frame :
    (v u w : Value) (p q : List Key) (k : Key)
    → ((j : Key) (r : List Key) → KeysApart k j → get_path w (j ∷ r) ≡ get_path u (j ∷ r))
    → get_path v p ≡ some u
    → Diverge (p ++ k ∷ []) q
    → get_path (plant v p w) q ≡ get_path v q
unfolding get_path plant
frame v u w [] (j ∷ q) k same h (inl apart) =
    same j q apart ∙ ap (λ s. get_path s (j ∷ q)) (sym (some-injective v u h))
frame v u w [] (j ∷ q) k same h (inr (_, no_more)) = elim no_more [ ]
frame v u w [] [] k same h no_more = elim no_more [ ]
frame v u w (i ∷ p) [] k same h no_more = elim no_more [ ]
frame v u w (i ∷ p) (j ∷ q) k same h (inl apart) =
    get_path-plant-Diverge v (i ∷ p) (j ∷ q) w (inl apart)
frame v u w (i ∷ p) (j ∷ q) k same h (inr (e, more)) = elim (Option-cases (at v i)) [
  | inl f ↦ rw (f, plant) refl
  | inr (x, f) ↦
      ground (
        arith,
        at-replace v i x (plant x p w) f,
        frame x u w p q k same (rw (f, get_path) at h) more,
      )
]

-- What is read below a planted object is what the object has there.
pub landed :
    (v u w : Value) (p : List Key) (k : Key) (y : Option Value)
    → get_path v p ≡ some u
    → at w k ≡ y
    → get_path (plant v p w) (p ++ k ∷ []) ≡ y
unfolding get_path
landed v u w p k y h e =
    get_path-append (plant v p w) p (k ∷ []) (get_path-plant v p w h) ∙ ground arith
