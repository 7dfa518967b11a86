-- ===== src/Server/Written.antt =====
-- What the endpoints and the features write, and how the registration reads it.
use Prim.Native.String.append
use sim_o1_ofhmp_interfaces.Prelude.{
  ℕ, String, ◌<>◌, Option, none, some, List, [], ◌∷◌, ◌≡◌, refl, ap, ◌∙◌,
}
use sim_o1_ofhmp_interfaces.Prelude.Result.{Result, ok, err, Error}
use sim_o1_ofhmp_interfaces.Text.{of_nat}
use sim_o1_ofhmp_interfaces.Value.{
  Key, index, Value, str, num, list, Items, nil, cons, get_path, put, del,
}
use sim_o1_ofhmp_interfaces.Config.Reload.{Config}
use sim_o1_ofhmp_interfaces.DictFactory.{assign}
use sim_o1_ofhmp_interfaces.DictFactory.Registry.{find}
use sim_o1_ofhmp_interfaces.Server.{running, operational, Device, items, names}
use sim_o1_ofhmp_interfaces.Server.Layouts.{register}
use sim_o1_ofhmp_interfaces.Server.Endpoints.{ssh_endpoint_config, to_endpoints}
use sim_o1_ofhmp_interfaces.Server.Features.{Crypto, configure_keys, at_key, to_cert, to_root}
use sim_o1_ofhmp_interfaces.Ves.Listing.{
  User, Endpoint, Connection, ssh, get_listen_connections, pruned,
}

-- An endpoint of the datastore as libyang gives it.
abbrev text_at : Value → List String → Option String
text_at v p = elim (get_path v (names p)) [ some (str s) ↦ some s | _ ↦ none ]

abbrev number_at : Value → List String → Option ℕ
number_at v p = elim (get_path v (names p)) [ some (num n) ↦ some n | _ ↦ none ]

abbrev users_of : Items → List User
users_of nil = []
users_of (cons v l) =
    record { name = text_at v ("name" ∷ []); password = text_at v ("password" ∷ []) } ∷ users_of l

abbrev one_or_more : List User → Option (User × List User)
one_or_more [] = none
one_or_more (u ∷ l) = some (u, l)

abbrev users_at : Value → List String → Option (User × List User)
users_at v p = elim (get_path v (names p)) [ some (list l) ↦ one_or_more (users_of l) | _ ↦ none ]

abbrev pub endpoint_at : Value → Endpoint
endpoint_at v = record {
  name = text_at v ("name" ∷ []);
  tls = elim (get_path v (names ("tls" ∷ []))) [
    | none ↦ none
    | some _ ↦ some (number_at v ("tls" ∷ "tcp-server-parameters" ∷ "local-port" ∷ []))
  ];
  ssh = elim (get_path v (names ("ssh" ∷ []))) [
    | none ↦ none
    | some _ ↦ some (record {
      local_port = number_at v ("ssh" ∷ "tcp-server-parameters" ∷ "local-port" ∷ []);
      user =
          users_at v
            ("ssh" ∷ "ssh-server-parameters" ∷ "client-authentication" ∷ "users" ∷ "user" ∷ []);
    })
  ];
}

-- A device where `NetconfServer` has registered its templates.
unfoldable pub device : Config → Device
unfolding register
device c = record { templates = register c []; writes = [] }

abbrev pub connections_of : Value → List Connection
unfolding get_path get_listen_connections
connections_of e =
    (get_listen_connections (some (endpoint_at e ∷ [])) (record {
      listen_endpoints = [];
      netconf_username = none;
      netconf_password = none;
    })).1.listen_endpoints

-- What one endpoint makes of the datastore: one write, whose list of endpoints holds it alone, and
-- which says nothing of a call home.
abbrev pub Configures : Device → Value → Type 0
Configures d e =
    (w : Value) × (d.writes
      ≡ record {
        datastore = running;
        xpath = "ietf-netconf-server";
        contents = w;
        operation = "merge";
      }
        ∷ [])
    × (get_path w to_endpoints ≡ some (items (e ∷ [])))
    × (get_path w (names ("ietf-netconf-server:netconf-server" ∷ "call-home" ∷ [])) ≡ none)

-- The mark that a password in the datastore begins with is what the registration leaves out.
pruned-marked : (password : String) → pruned ("$0$" <> password) ≡ password
pruned-marked password = ap pruned (
    append.cons "$" "0$" password
    ∙ ap (λ s. String.◌∷◌ "$" s)
        (append.cons "0" "$" password
          ∙ ap (λ s. String.◌∷◌ "0" s)
              (append.cons "$" "" password ∙ ap (λ s. String.◌∷◌ "$" s) (append.nil password))))

-- `ssh_endpoint_config` returns the endpoint that it writes, and the registration finds in it one SSH
-- connection, with the port, and with the user and the password of the configuration.
pub ssh_endpoint_config-listed :
    (c : Config) (port : ℕ)
    → (e : Value) × ((ssh_endpoint_config port (device c)).0 ≡ ok e)
      × Configures (ssh_endpoint_config port (device c)).1 e
      × (connections_of e
          ≡ ssh ("ssh-endpoint-" <> of_nat port) port c.netconf_username c.netconf_password ∷ [])
unfolding ssh_endpoint_config connections_of device get_path find assign put del
ssh_endpoint_config-listed c port = (
  _,
  refl,
  (_, refl, refl, refl),
  ap (λ p. ssh ("ssh-endpoint-" <> of_nat port) port c.netconf_username p ∷ [])
      (pruned-marked c.netconf_password),
)

-- An outcome that leaves the device as it is and raises.
abbrev Raises : Device → Result (Unit {0}) × Device → Type 0
Raises d r = (e : Error) × (r ≡ (err e, d))

-- The value at a path, and the next entry.
abbrev pub entry_at : Value → Key → List String → Option Value
entry_at v i p = get_path v (at_key i (names p))

-- `configure` writes the same keystore and the same truststore to the running and to the operational
-- datastore. The SSH key holds the public key in the format of SSH, the TLS key in the other; both
-- hold the private key and the certificate, the TLS key also the certificate for the SMO; the
-- truststore holds the two certificates of the CA. No other write is made.
pub configure_keys-written :
    (c : Config) (k : Crypto)
    → (v w : Value) × ((configure_keys k (device c)).0 ≡ ok tt)
      × ((configure_keys k (device c)).1.writes
          ≡ record {
            datastore = running;
            xpath = "ietf-keystore";
            contents = v;
            operation = "merge";
          }
            ∷ record {
              datastore = operational;
              xpath = "ietf-keystore";
              contents = v;
              operation = "merge";
            }
            ∷ record {
              datastore = running;
              xpath = "ietf-truststore";
              contents = w;
              operation = "merge";
            }
            ∷ record {
              datastore = operational;
              xpath = "ietf-truststore";
              contents = w;
              operation = "merge";
            }
            ∷ [])
      × (entry_at v (index 0) ("public-key" ∷ []) ≡ some (str k.public_key_ssh))
      × (entry_at v (index 1) ("public-key" ∷ []) ≡ some (str k.public_key))
      × (entry_at v (index 0) ("cleartext-private-key" ∷ []) ≡ some (str k.private_key))
      × (entry_at v (index 1) ("cleartext-private-key" ∷ []) ≡ some (str k.private_key))
      × (get_path v (at_key (index 0) (to_cert (index 0))) ≡ some (str k.certificate))
      × (get_path v (at_key (index 1) (to_cert (index 0))) ≡ some (str k.certificate))
      × (get_path v (at_key (index 1) (to_cert (index 1))) ≡ some (str k.certificate_smo))
      × (get_path w (to_root (index 0)) ≡ some (str k.ca_certificate))
      × (get_path w (to_root (index 1)) ≡ some (str k.ca_certificate_smo))
unfolding configure_keys device get_path find assign put del
configure_keys-written c k =
    (_, _, refl, refl, refl, refl, refl, refl, refl, refl, refl, refl, refl)
