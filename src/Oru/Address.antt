-- ===== src/Oru/Address.antt =====
-- `update_remote_address`, and what of Python it uses.
use text.Mathlib.Text.{starts_with}
use sim_o1_ofhmp_interfaces.Prelude.{
  String, Bool, true, false, ◌||◌, Option, none, some, ◌==◌, string_eq, if◌then◌else◌,
}
use sim_o1_ofhmp_interfaces.Prelude.Result.{Result, ok, err, type_error, attribute_error, ◌>>=◌}
use sim_o1_ofhmp_interfaces.Value.{
  name, Value, null, str, list, dict, Items, nil, cons, Entries, end, entry, get, put, key_eq,
}
use sim_o1_ofhmp_interfaces.DictFactory.{assign}
use sim_o1_ofhmp_interfaces.Ves.{subscript}

-- `t in s`, of texts
unfoldable pub contains : String → String → Bool
contains t String.[] = starts_with String.[] t
contains t (String.◌∷◌ c s) = starts_with (String.◌∷◌ c s) t || contains t s

abbrev is_in_list : String → Items → Bool
is_in_list x nil = false
is_in_list x (cons (str y) l) = y == x || is_in_list x l
is_in_list x (cons v l) = is_in_list x l

abbrev is_some : Option Value → Bool
is_some none = false
is_some (some v) = true

-- `x in v`
unfoldable pub is_within : String → Value → Result Bool
unfolding contains get
is_within x (dict d) = ok (is_some (get d (name x)))
is_within x (list l) = ok (is_in_list x l)
is_within x (str s) = ok (contains x s)
is_within x v = err type_error

-- `endpoint.get("name")`; without it, it is None.
unfoldable pub name_of : Value → Result Value
unfolding get
name_of (dict d) = elim (get d (name "name")) [ none ↦ ok null | some v ↦ ok v ]
name_of v = err attribute_error

-- `endpoint["tls"]["tcp-client-parameters"]["remote-address"] = new_address`
unfoldable pub put_address : String → Value → Entries → Result Value
unfolding subscript assign put
put_address new v d = do
  parameters ← subscript v (name "tcp-client-parameters")
  new_parameters ← assign parameters (name "remote-address") (str new)
  tls ← assign v (name "tcp-client-parameters") new_parameters
  ok (dict (put d (name "tls") tls))

-- What is done with an endpoint whose name holds the target.
unfoldable pub retarget : String → Value → Result Value
unfolding is_within put_address get
retarget new (dict d) = elim (get d (name "tls")) [
  | none ↦ ok (dict d)
  | some tls ↦ do
    found ← is_within "tcp-client-parameters" tls
    if found then put_address new tls d else ok (dict d)
]
retarget new v = ok v

-- One turn of the loop over the endpoints.
unfoldable pub update_endpoint : String → String → Value → Result Value
unfolding is_within name_of retarget
update_endpoint target new v = do
  n ← name_of v
  meant ← is_within target n
  if meant then retarget new v else ok v

unfoldable pub update_endpoints : String → String → Items → Result Items
unfolding update_endpoint
update_endpoints target new nil = ok nil
update_endpoints target new (cons v l) = do
  w ← update_endpoint target new v
  m ← update_endpoints target new l
  ok (cons w m)

abbrev is_list : Value → Bool
is_list (list l) = true
is_list v = false

unfoldable mutual
  unfolding update_endpoints

  -- `update_remote_address`. A value that is neither a dictionary nor a list is left.
  pub update_remote_address : Value → String → String → Result Value
  update_remote_address (dict d) target new = do e ← update_entries d target new; ok (dict e)
  update_remote_address (list l) target new = do m ← update_items l target new; ok (list m)
  update_remote_address v target new = ok v

  update_items : Items → String → String → Result Items
  update_items nil target new = ok nil
  update_items (cons v l) target new = do
    w ← update_remote_address v target new
    m ← update_items l target new
    ok (cons w m)

  update_entries : Entries → String → String → Result Entries
  update_entries end target new = ok end
  update_entries (entry k (list l) d) target new = do
    m ←
        if key_eq k (name "endpoint")
        then update_endpoints target new l
        else update_items l target new
    e ← update_entries d target new
    ok (entry k (list m) e)
  update_entries (entry k v d) target new = do
    w ← update_remote_address v target new
    e ← update_entries d target new
    ok (entry k w e)
