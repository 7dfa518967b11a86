-- ===== src/DictFactory/Delete.antt =====
-- What `delete_key` leaves along its path, and beside it, and when it raises.
use sim_o1_ofhmp_interfaces.Prelude.{List, [], ◌∷◌, ◌++◌, none, some, ◌≡◌, ap, arith, ◌⊎◌, ◌∙◌}
use sim_o1_ofhmp_interfaces.Prelude.Result.{ok, err, key_error, index_error, ◌>>=◌}
use sim_o1_ofhmp_interfaces.Value.{Key, Value, dict, Entries, get, del, at, get_path}
use sim_o1_ofhmp_interfaces.Value.Fields.{key_eq_refl, get-del}
use sim_o1_ofhmp_interfaces.DictFactory.{erase, delete_key, enter_delete}
use sim_o1_ofhmp_interfaces.DictFactory.Plant.{KeysApart, Diverge, plant, KeysApart-ne}
use sim_o1_ofhmp_interfaces.DictFactory.Loop.{
  within-eq, within-err, enter_delete-ok, enter_delete-err, frame, landed,
}

del_apart :
    (d : Entries) (k j : Key) (r : List Key)
    → KeysApart k j
    → get_path (dict (del d k)) (j ∷ r) ≡ get_path (dict d) (j ∷ r)
unfolding get_path
del_apart d k j r apart = ground (arith, get-del d k j, KeysApart-ne k j apart)

at-del : (d : Entries) (k : Key) → at (dict (del d k)) k ≡ none
unfolding at
at-del d k = simp (get-del, key_eq_refl)

erase-dict :
    (d : Entries) (k : Key) (u : Value)
    → get d k ≡ some u
    → erase (dict d) (some k) ≡ ok (dict (del d k))
unfolding erase
erase-dict d k u e = ground arith

module _ (v : Value) (p : List Key) (k : Key) where
  -- Where the path leads to a value that a dictionary holds, `delete_key` returns: the path leads
  -- nowhere, and every path that parts from it leads to what it led to.
  pub delete_key-dict :
      (d : Entries) (u : Value)
      → get_path v p ≡ some (dict d)
      → get d k ≡ some u
      → (v' : Value) × (delete_key v (p ++ k ∷ []) ≡ ok v')
        × (get_path v' (p ++ k ∷ []) ≡ none)
        × ((q : List Key) → Diverge (p ++ k ∷ []) q → get_path v' q ≡ get_path v q)
  unfolding delete_key
  delete_key-dict d u h e = (
    plant v p (dict (del d k)),
    within-eq enter_delete erase enter_delete-ok v p k h
        ∙ ap (λ r. r >>= λ w. ok (plant v p w)) (erase-dict d k u e),
    landed v (dict d) _ p k none h (at-del d k),
    λ q apart. frame v (dict d) _ p q k (del_apart d k) h apart,
  )

  -- Where the path leads nowhere, `delete_key` raises: a KeyError for a missing key of a
  -- dictionary, a KeyError or an IndexError for a path that breaks off higher up.
  pub delete_key-err :
      ((d : Entries)
        → get_path v p ≡ some (dict d)
        → get d k ≡ none
        → delete_key v (p ++ k ∷ []) ≡ err key_error)
      × (get_path v p ≡ none
          → (delete_key v (p ++ k ∷ []) ≡ err key_error)
            ⊎ (delete_key v (p ++ k ∷ []) ≡ err index_error))
  unfolding delete_key
  delete_key-err = (
    λ d h e. within-eq enter_delete erase enter_delete-ok v p k h ∙ ground arith,
    λ h. within-err enter_delete erase enter_delete-ok enter_delete-err v p k h,
  )
