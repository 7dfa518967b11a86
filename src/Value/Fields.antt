-- ===== src/Value/Fields.antt =====
-- The laws of a dictionary's entries and of a list's places.
use sim_o1_ofhmp_interfaces.Prelude.{
  ℕ, zero, suc, ◌<◌, ◌≡◌, refl, ap, ◌↔◌, true, none, some, arith, eq_iff, nat_beq_iff,
  if◌then◌else◌,
}
use sim_o1_ofhmp_interfaces.Value.{
  Key, name, index, negsuc, Value, Items, nil, cons, Entries, end, entry, key_eq, get, put, del,
  length, get_elem?, set, place,
}

pub key_eq_iff : (j k : Key) → (key_eq j k ≡ true) ↔ (j ≡ k)
key_eq_iff (name a) (name b) = ground (arith, eq_iff a b)
key_eq_iff (index m) (index n) = ground (arith, nat_beq_iff m n)
key_eq_iff (negsuc m) (negsuc n) = ground (arith, nat_beq_iff m n)
key_eq_iff _ _ = (λ h. cc, λ h. cc)

pub key_eq_refl : (k : Key) → key_eq k k ≡ true
key_eq_refl k = (key_eq_iff k k).1 refl

pub get-put :
    (d : Entries) (k j : Key) (v : Value)
    → get (put d k v) j ≡ (if key_eq k j then some v else get d j)
unfolding get put
get-put end k j v = refl
get-put (entry i w d) k j v =
    ground (arith, key_eq_iff k j, key_eq_iff i k, key_eq_iff i j, get-put d k j v)

pub get-del : (d : Entries) (k j : Key) → get (del d k) j ≡ (if key_eq k j then none else get d j)
unfolding get del
get-del end k j = ground arith
get-del (entry i w d) k j =
    ground (arith, key_eq_iff k j, key_eq_iff i k, key_eq_iff i j, get-del d k j)

pub get_elem?-set_self :
    (xs : Items) (i : ℕ) (v : Value) → i < length xs → get_elem? (set xs i v) i ≡ some v
get_elem?-set_self nil i v h = elim h [ ]
get_elem?-set_self (cons x xs) zero v h = refl
get_elem?-set_self (cons x xs) (suc i) v h = get_elem?-set_self xs i v (omega arith)

pub length-set : (xs : Items) (i : ℕ) (v : Value) → length (set xs i v) ≡ length xs
length-set nil i v = refl
length-set (cons x xs) zero v = refl
length-set (cons x xs) (suc i) v = ap suc (length-set xs i v)

pub place-lt : (n : ℕ) (k : Key) (i : ℕ) → place n k ≡ some i → i < n
unfolding place
place-lt n (name a) i h = ground arith
place-lt n (index j) i h = ground arith
place-lt n (negsuc j) i h = ground arith
