-- ===== src/Value.antt =====
-- The values of Python that the program builds, reads and sends as JSON: what the standard library's
-- `dict`, `list`, `str`, `int` and `bool` do with them.
pub mod Fields
use sim_o1_ofhmp_interfaces.Prelude.{
  ℕ, zero, suc, ◌-◌, String, List, [], ◌∷◌, Bool, true, false, Option, none, some, ltb, nat_beq,
  ◌==◌, string_eq, if◌then◌else◌,
}

-- An index of a list, or a key of a dictionary. `negsuc n` is the index -(n + 1).
pub data Key : Type 0 where
  name : String → Key
  index : ℕ → Key
  negsuc : ℕ → Key

mutual
  pub data Value : Type 0 where
    null : Value
    bool : Bool → Value
    num : ℕ → Value
    str : String → Value
    list : Items → Value
    dict : Entries → Value

  pub data Items : Type 0 where
    nil : Items
    cons : Value → Items → Items

  pub data Entries : Type 0 where
    end : Entries
    entry : Key → Value → Entries → Entries

abbrev pub key_eq : Key → Key → Bool
key_eq (name a) (name b) = a == b
key_eq (index m) (index n) = nat_beq m n
key_eq (negsuc m) (negsuc n) = nat_beq m n
key_eq _ _ = false

-- `d.get(k)`
unfoldable pub get : Entries → Key → Option Value
get end k = none
get (entry j v d) k = if key_eq j k then some v else get d k

-- `d[k] = v`: a new key goes to the end, an old one keeps its place.
unfoldable pub put : Entries → Key → Value → Entries
put end k v = entry k v end
put (entry j w d) k v = if key_eq j k then entry j v d else entry j w (put d k v)

-- `del d[k]`. Every entry of the key goes; a dictionary has at most one.
unfoldable pub del : Entries → Key → Entries
del end k = end
del (entry j w d) k = let rest = del d k in if key_eq j k then rest else entry j w rest

abbrev pub length : Items → ℕ
length nil = 0
length (cons x xs) = suc (length xs)

abbrev pub get_elem? : Items → ℕ → Option Value
get_elem? nil i = none
get_elem? (cons x xs) zero = some x
get_elem? (cons x xs) (suc i) = get_elem? xs i

abbrev pub set : Items → ℕ → Value → Items
set nil i v = nil
set (cons x xs) zero v = cons v xs
set (cons x xs) (suc i) v = cons x (set xs i v)

-- `xs.append(v)`
abbrev pub append : Items → Value → Items
append nil v = cons v nil
append (cons x xs) v = cons x (append xs v)

-- `xs.pop(i)`, for an index in range
abbrev pub pop : Items → ℕ → Items
pop nil i = nil
pop (cons x xs) zero = xs
pop (cons x xs) (suc i) = cons x (pop xs i)

-- The place that a list of the length `n` gives an index: a negative one counts from the end.
unfoldable pub place : ℕ → Key → Option ℕ
place n (name a) = none
place n (index i) = if ltb i n then some i else none
place n (negsuc i) = if ltb i n then some (n - suc i) else none

-- `v[k]`, as far as it returns.
unfoldable pub at : Value → Key → Option Value
unfolding get place
at (list xs) k = elim (place (length xs) k) [ none ↦ none | some i ↦ get_elem? xs i ]
at (dict d) k = get d k
at _ k = none

-- `v[k1][k2]…`, as far as it returns.
unfoldable pub get_path : Value → List Key → Option Value
unfolding at
get_path v [] = some v
get_path v (k ∷ p) = elim (at v k) [ none ↦ none | some w ↦ get_path w p ]
