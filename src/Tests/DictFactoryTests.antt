-- ===== src/Tests/DictFactoryTests.antt =====
-- `BaseTemplate` and `DictFactory` on the template of a NETCONF server.
use sim_o1_ofhmp_interfaces.Prelude.{
  List, [], ◌∷◌, ◌++◌, true, false, none, some, ◌≡◌, refl, ◌⊎◌, string_eq,
}
use sim_o1_ofhmp_interfaces.Prelude.Result.{ok, err, key_error, index_error, type_error}
use sim_o1_ofhmp_interfaces.Value.{
  Key, name, index, Value, null, num, list, dict, Items, nil, cons, Entries, end, entry, get,
  get_path, append, at,
}
use sim_o1_ofhmp_interfaces.DictFactory.{update_key, delete_key}
use sim_o1_ofhmp_interfaces.DictFactory.Plant.{Diverge}
use sim_o1_ofhmp_interfaces.DictFactory.Update.{
  Sets, update_key-set, update_key-append, update_key-err,
}
use sim_o1_ofhmp_interfaces.DictFactory.Delete.{delete_key-dict, delete_key-err}

abbrev ports : Entries
ports = entry (name "local-port") (num 830) end

abbrev endpoints : Items
endpoints = cons (dict ports) nil

abbrev listen : Entries
listen = entry (name "idle-timeout") (num 3600) (entry (name "endpoint") (list endpoints) end)

abbrev server : Value
server = dict (entry (name "call-home") null (entry (name "listen") (dict listen) end))

abbrev to_listen : List Key
to_listen = name "listen" ∷ []

abbrev to_endpoints : List Key
to_endpoints = name "listen" ∷ name "endpoint" ∷ []

abbrev to_first : List Key
to_first = name "listen" ∷ name "endpoint" ∷ index 0 ∷ []

abbrev to_nowhere : List Key
to_nowhere = name "listen" ∷ name "endpoint" ∷ index 1 ∷ []

found :
    (get_path server to_first ≡ some (dict ports))
    × (get_path server to_endpoints ≡ some (list endpoints))
    × (get_path server to_listen ≡ some (dict listen))
unfolding get_path at get
found = (refl, refl, refl)

nowhere : get_path server to_nowhere ≡ none
unfolding get_path at get
nowhere = refl

held :
    (get listen (name "endpoint") ≡ some (list endpoints))
    × (get ports (name "local-port") ≡ some (num 830))
unfolding get
held = (refl, refl)

not_held : get ports (name "remote-port") ≡ none
unfolding get
not_held = refl

update_key-set_example :
    Sets server to_first
      (name "remote-port")
      (num 4334)
      (update_key server (to_first ++ name "remote-port" ∷ []) (num 4334) false)
      (num 4334)
update_key-set_example =
    update_key-set server to_first (name "remote-port") (num 4334) ports (found.0)

update_key-append_example :
    Sets server to_listen
      (name "endpoint")
      (dict end)
      (update_key server (to_listen ++ name "endpoint" ∷ []) (dict end) true)
      (list (append endpoints (dict end)))
update_key-append_example =
    update_key-append server to_listen (name "endpoint") (dict end) listen endpoints (found.2)
      (held.0)

nowhere_set :
    (update_key server (to_nowhere ++ name "local-port" ∷ []) null false ≡ err key_error)
    ⊎ (update_key server (to_nowhere ++ name "local-port" ∷ []) null false ≡ err index_error)
nowhere_set = update_key-err server to_nowhere (name "local-port") null false nowhere

delete_key-dict_example :
    (v' : Value) × (delete_key server (to_first ++ name "local-port" ∷ []) ≡ ok v')
    × (get_path v' (to_first ++ name "local-port" ∷ []) ≡ none)
    × ((q : List Key)
        → Diverge (to_first ++ name "local-port" ∷ []) q
        → get_path v' q ≡ get_path server q)
delete_key-dict_example =
    delete_key-dict server to_first (name "local-port") ports (num 830) (found.0) (held.1)

absent_deleted :
    ((d : Entries)
      → get_path server to_first ≡ some (dict d)
      → get d (name "remote-port") ≡ none
      → delete_key server (to_first ++ name "remote-port" ∷ []) ≡ err key_error)
    × (get_path server to_first ≡ none
        → (delete_key server (to_first ++ name "remote-port" ∷ []) ≡ err key_error)
          ⊎ (delete_key server (to_first ++ name "remote-port" ∷ []) ≡ err index_error))
absent_deleted = delete_key-err server to_first (name "remote-port")

update_runs :
    (update_key server (name "call-home" ∷ name "a" ∷ []) null false ≡ err type_error)
    × (update_key server (to_endpoints ++ name "x" ∷ []) (num 1) true
        ≡ update_key server to_endpoints (list (append endpoints (num 1))) false)
unfolding update_key delete_key
update_runs = (refl, refl)
