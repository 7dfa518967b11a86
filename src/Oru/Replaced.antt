-- ===== src/Oru/Replaced.antt =====
-- What `replace_callhome_settings` makes of call-home settings that follow the YANG module.
use sim_o1_ofhmp_interfaces.Prelude.{
  ℕ, String, Bool, true, false, Option, none, some, List, [], ◌∷◌, map, ◌≡◌, refl, ap, ◌∙◌, ◌==◌,
  string_eq, if◌then◌else◌,
}
use sim_o1_ofhmp_interfaces.Prelude.Result.{Result, ok, err, sysrepo_not_found, ◌>>=◌}
use sim_o1_ofhmp_interfaces.Value.{Value, str, num, list, Items, nil, cons, get, put}
use sim_o1_ofhmp_interfaces.DictFactory.{assign}
use sim_o1_ofhmp_interfaces.Ves.{subscript}
use sim_o1_ofhmp_interfaces.Config.Reload.{Config}
use sim_o1_ofhmp_interfaces.Server.{running, Device, set_data, fields, items}
use sim_o1_ofhmp_interfaces.Oru.Address.{
  contains, is_within, name_of, update_endpoint, update_endpoints, update_remote_address, retarget,
  put_address,
}
use sim_o1_ofhmp_interfaces.Oru.CallHome.{
  call_home_tls, call_home_ssh, dhcp_address, replace_address, with_tls, with_ssh,
  replace_callhome_settings,
}

-- An endpoint that the device calls home to.
pub record Endpoint : Type 0 where
  pub name : String
  pub address : String
  pub port : ℕ

pub data Transport : Type 0 where
  tls ssh : Transport

abbrev pub key_of : Transport → String
key_of tls = "tls"
key_of ssh = "ssh"

abbrev pub endpoint_value : Transport → Endpoint → Value
endpoint_value transport e = fields (
    ("name", str e.name)
    ∷ (
      key_of transport,
      fields (
          (
            "tcp-client-parameters",
            fields (("remote-address", str e.address) ∷ ("remote-port", num e.port) ∷ []),
          )
          ∷ []),
    )
    ∷ [])

abbrev pub endpoint_items : Transport → List Endpoint → Items
endpoint_items transport [] = nil
endpoint_items transport (e ∷ l) = cons (endpoint_value transport e) (endpoint_items transport l)

-- The settings of one client, with their endpoints.
abbrev pub settings : Transport → List Endpoint → Value
settings transport l = fields (
    (
      "netconf-server",
      fields (
          (
            "call-home",
            fields (
                (
                  "netconf-client",
                  items (
                      fields (
                        ("name", str "default-client")
                        ∷ (
                          "endpoints",
                          fields (("endpoint", list (endpoint_items transport l)) ∷ []),
                        )
                        ∷ [])
                      ∷ []),
                )
                ∷ []),
          )
          ∷ []),
    )
    ∷ [])

-- `get_data` where the datastore has these settings, and nothing else of the three paths.
abbrev pub finds : Transport → List Endpoint → String → Result Value
finds tls l path = if path == call_home_tls then ok (settings tls l) else err sysrepo_not_found
finds ssh l path = if path == call_home_ssh then ok (settings ssh l) else err sysrepo_not_found

-- An endpoint of the management system gets the address; over SSH none does.
abbrev pub redirected : Transport → String → Endpoint → Endpoint
redirected tls address e = if contains "smo" e.name then record e { address = address } else e
redirected ssh address e = e

abbrev pub is_tls : Transport → Bool
is_tls tls = true
is_tls ssh = false

update_endpoint-value :
    (transport : Transport) (address : String) (e : Endpoint)
    → update_endpoint "smo" address (endpoint_value transport e)
      ≡ ok (endpoint_value transport (redirected transport address e))
unfolding update_endpoint name_of is_within retarget put_address get put subscript assign
update_endpoint-value tls address e = by_test (contains "smo" e.name)
  where
    by_test :
        (b : Bool)
        → (if b
            then ok (endpoint_value tls (record e { address = address }))
            else ok (endpoint_value tls e))
          ≡ ok (endpoint_value tls (if b then record e { address = address } else e))
    by_test true = refl
    by_test false = refl
update_endpoint-value ssh address e = by_test (contains "smo" e.name)
  where
    by_test :
        (b : Bool)
        → (if b then ok (endpoint_value ssh e) else ok (endpoint_value ssh e))
          ≡ ok (endpoint_value ssh e)
    by_test true = refl
    by_test false = refl

update_endpoints-items :
    (transport : Transport) (address : String) (l : List Endpoint)
    → update_endpoints "smo" address (endpoint_items transport l)
      ≡ ok (endpoint_items transport (map (redirected transport address) l))
unfolding update_endpoints
update_endpoints-items transport address [] = refl
update_endpoints-items transport address (e ∷ l) =
    ap
      (λ r. r >>= λ w.
        update_endpoints "smo" address (endpoint_items transport l) >>= λ m. ok (cons w m))
      (update_endpoint-value transport address e)
    ∙ ap (λ r. r >>= λ m. ok (cons (endpoint_value transport (redirected transport address e)) m))
        (update_endpoints-items transport address l)

update_remote_address-settings :
    (transport : Transport) (address : String) (l : List Endpoint)
    → update_remote_address (settings transport l) "smo" address
      ≡ ok (settings transport (map (redirected transport address) l))
unfolding update_remote_address
update_remote_address-settings transport address l =
    rw (update_endpoints-items transport address l) refl

-- The settings are written once, if an address came by DHCP.
abbrev pub after : Transport → List Endpoint → Option String → Device → Device
after transport l none d = d
after transport l (some address) d =
    (set_data running "ietf-netconf-server"
      (settings transport (map (redirected transport address) l)) "merge" d).1

replace_address-settings :
    (c : Config) (transport : Transport) (l : List Endpoint) (d : Device)
    → replace_address c (settings transport l) (is_tls transport) d
      ≡ (ok (is_tls transport), after transport l (dhcp_address c) d)
unfolding replace_address
replace_address-settings c transport l d = by_address (dhcp_address c)
  where
    by_address :
        (o : Option String)
        → (elim o as (λ _. Result Bool × Device) [
          | none ↦ (ok (is_tls transport), d)
          | some address ↦ elim (update_remote_address (settings transport l) "smo" address) [
            | err e ↦ (err e, d)
            | ok v ↦ (ok (is_tls transport), (set_data running "ietf-netconf-server" v "merge" d).1)
          ]
        ])
          ≡ (ok (is_tls transport), after transport l o d)
    by_address none = refl
    by_address (some address) = rw (update_remote_address-settings transport address l) refl

-- Where the device calls home over TLS, or else over SSH, `replace_callhome_settings` returns which.
-- Without an address of the controller from DHCP it writes nothing. With one it writes the settings
-- back once: over TLS each endpoint whose name holds "smo" has the new address and all else is as it
-- was; over SSH they are as they were, whatever their names.
pub replace_callhome_settings-written :
    (c : Config) (transport : Transport) (l : List Endpoint) (d : Device)
    → replace_callhome_settings c (finds transport l) d
      ≡ (ok (is_tls transport), after transport l (dhcp_address c) d)
unfolding replace_callhome_settings with_tls with_ssh
replace_callhome_settings-written c tls l d = replace_address-settings c tls l d
replace_callhome_settings-written c ssh l d = replace_address-settings c ssh l d
