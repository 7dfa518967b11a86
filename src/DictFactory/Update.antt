-- ===== src/DictFactory/Update.antt =====
-- What `update_key` leaves along its path, and beside it, and when it raises.
use sim_o1_ofhmp_interfaces.Prelude.{
  List, [], ◌∷◌, ◌++◌, Bool, true, false, none, some, ◌≡◌, arith, ◌⊎◌, ◌∙◌,
}
use sim_o1_ofhmp_interfaces.Prelude.Result.{Result, ok, err, key_error, index_error}
use sim_o1_ofhmp_interfaces.Value.{
  Key, Value, list, dict, Items, Entries, get, put, append, at, get_path,
}
use sim_o1_ofhmp_interfaces.Value.Fields.{key_eq_refl, get-put}
use sim_o1_ofhmp_interfaces.DictFactory.{write, update_key, enter_update}
use sim_o1_ofhmp_interfaces.DictFactory.Plant.{KeysApart, Diverge, plant, KeysApart-ne}
use sim_o1_ofhmp_interfaces.DictFactory.Loop.{
  within-eq, within-err, enter_update-ok, enter_update-err, frame, landed,
}

at-put : (d : Entries) (k : Key) (x : Value) → at (dict (put d k x)) k ≡ some x
unfolding at
at-put d k x = simp (get-put, key_eq_refl)

put_apart :
    (d : Entries) (k : Key) (x : Value) (j : Key) (r : List Key)
    → KeysApart k j
    → get_path (dict (put d k x)) (j ∷ r) ≡ get_path (dict d) (j ∷ r)
unfolding get_path
put_apart d k x j r apart = ground (arith, get-put d k j x, KeysApart-ne k j apart)

module _ (v : Value) (p : List Key) (k : Key) (x : Value) where
  -- The dictionary that `update_key` returns: `y` stands at the path, and a path that parts from it
  -- leads to what it led to.
  abbrev pub Sets : Result Value → Value → Type 0
  Sets r y =
      (v' : Value) × (r ≡ ok v')
      × (get_path v' (p ++ k ∷ []) ≡ some y)
      × ((q : List Key) → Diverge (p ++ k ∷ []) q → get_path v' q ≡ get_path v q)

  -- Where the path above the last key leads to a dictionary, `update_key` without append returns,
  -- whether the key is there or new: the value stands at the path, and every path that parts from it
  -- leads to what it led to.
  pub update_key-set :
      (d : Entries) → get_path v p ≡ some (dict d) → Sets (update_key v (p ++ k ∷ []) x false) x
  unfolding update_key
  update_key-set d h = (
    plant v p (dict (put d k x)),
    within-eq enter_update (write x false) enter_update-ok v p k h,
    landed v (dict d) (dict (put d k x)) p k (some x) h (at-put d k x),
    λ q apart. frame v (dict d) (dict (put d k x)) p q k (put_apart d k x) h apart,
  )

  -- With append, where the path leads to a list that a dictionary holds, the list at the path is
  -- longer by the value at its end, and every path that parts from it leads to what it led to.
  pub update_key-append :
      (d : Entries) (xs : Items)
      → get_path v p ≡ some (dict d)
      → get d k ≡ some (list xs)
      → Sets (update_key v (p ++ k ∷ []) x true) (list (append xs x))
  unfolding update_key
  update_key-append d xs h e = (
    plant v p (dict (put d k (list (append xs x)))),
    within-eq enter_update (write x true) enter_update-ok v p k h ∙ ground arith,
    landed v (dict d) _ p k (some (list (append xs x))) h (at-put d k (list (append xs x))),
    λ q apart. frame v (dict d) _ p q k (put_apart d k (list (append xs x))) h apart,
  )

  -- Where the path above the last key leads nowhere, `update_key` raises a KeyError or an
  -- IndexError, with append or without.
  pub update_key-err :
      (append_to_list : Bool)
      → get_path v p ≡ none
      → (update_key v (p ++ k ∷ []) x append_to_list ≡ err key_error)
        ⊎ (update_key v (p ++ k ∷ []) x append_to_list ≡ err index_error)
  unfolding update_key
  update_key-err append_to_list h =
      within-err enter_update (write x append_to_list) enter_update-ok enter_update-err v p k h
