-- ===== src/DictFactory.antt =====
-- base/src/core/dict_factory.py: `DictFactory`, the registry of templates, and `BaseTemplate`, whose
-- dictionary is read and changed along a path of keys. A method that raises changes nothing; one
-- that returns gives the new dictionary.
pub mod Plant
pub mod Loop
pub mod Update
pub mod Delete
pub mod Registry
use sim_o1_ofhmp_interfaces.Prelude.{
  ℕ, String, List, [], ◌∷◌, Bool, true, false, Option, none, some, ◌==◌, string_eq, if◌then◌else◌,
}
use sim_o1_ofhmp_interfaces.Prelude.Result.{
  Error, Result, ok, err, key_error, index_error, type_error, value_error, ◌>>=◌,
}
use sim_o1_ofhmp_interfaces.Value.{
  Key, name, index, negsuc, Value, null, bool, num, str, list, dict, Items, Entries, get, put, del,
  length, set, append, pop, place, at,
}

unfoldable pub or_raise {ℓ} : {A : Type ℓ} → Error → Option A → Result A
or_raise e none = err e
or_raise e (some a) = ok a

-- The object that a nested update leaves in the slot `v[k]`, which holds it by reference.
unfoldable pub replace : Value → Key → Value → Value
replace (list xs) k w = elim (place (length xs) k) [ none ↦ list xs | some i ↦ list (set xs i w) ]
replace (dict d) k w = dict (put d k w)
replace v k w = v

-- One round of the loop over `path[:-1]` in `update_key`.
pub enter_update : Value → Key → Result Value
unfolding or_raise at
enter_update (list xs) (name a) = err key_error
enter_update (list xs) k = or_raise index_error (at (list xs) k)
enter_update (dict d) k = or_raise key_error (get d k)
enter_update v k = err key_error

-- One round of the loop over `path[:-1]` in `delete_key`.
pub enter_delete : Value → Key → Result Value
unfolding or_raise at
enter_delete (list xs) k = or_raise index_error (at (list xs) k)
enter_delete (dict d) k = or_raise key_error (get d k)
enter_delete v k = err key_error

-- `current_level[path[-1]] = value`
unfoldable pub assign : Value → Key → Value → Result Value
unfolding place
assign (list xs) (name a) x = err type_error
assign (list xs) k x = elim (place (length xs) k) [
  | none ↦ err index_error
  | some i ↦ ok (list (set xs i x))
]
assign (dict d) k x = ok (dict (put d k x))
assign v k x = err type_error

-- `path[-1] in current_level and isinstance(current_level[path[-1]], list)`, and the append.
append_at : Entries → Key → Value → Option Value → Result Value
append_at d k x (some (list xs)) = ok (dict (put d k (list (append xs x))))
append_at d k x _ = ok (dict (put d k x))

-- What `update_key` does at its last key; `none` is the empty path, where `path[-1]` raises.
write : Value → Bool → Value → Option Key → Result Value
unfolding append_at assign get
write x true (list xs) k = ok (list (append xs x))
write x append_to_list v none = err index_error
write x true (dict d) (some k) = append_at d k x (get d k)
write x append_to_list v (some k) = assign v k x

-- What `delete_key` does at its last key.
erase : Value → Option Key → Result Value
unfolding or_raise place get del
erase (list xs) (some (name a)) = err type_error
erase (list xs) (some k) = elim (place (length xs) k) [
  | none ↦ err index_error
  | some i ↦ ok (list (pop xs i))
]
erase (dict d) (some k) = do old ← or_raise key_error (get d k); ok (dict (del d k))
erase (list xs) none = err index_error
erase (dict d) none = err index_error
erase v k = err type_error

-- The loop over the path, with what it does in a level and at the last key.
unfoldable pub within :
    (Value → Key → Result Value)
    → (Value → Option Key → Result Value)
    → Value
    → List Key
    → Result Value
unfolding replace
within enter leaf v [] = leaf v none
within enter leaf v (k ∷ []) = leaf v (some k)
within enter leaf v (k ∷ j ∷ p) = do
  w ← enter v k
  w' ← within enter leaf w (j ∷ p)
  ok (replace v k w')

unfoldable pub update_key : Value → List Key → Value → Bool → Result Value
unfolding within enter_update write
update_key v p x append_to_list = within enter_update (write x append_to_list) v p

unfoldable pub delete_key : Value → List Key → Result Value
unfolding within enter_delete erase
delete_key v p = within enter_delete erase v p
