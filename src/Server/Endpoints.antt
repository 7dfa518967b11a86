-- ===== src/Server/Endpoints.antt =====
-- `ssh_endpoint_config`, `tls_endpoint_config` and `get_netconf_server_parameters_updated_keys`.
use sim_o1_ofhmp_interfaces.Prelude.{ℕ, String, ◌<>◌, true, false, List, [], ◌∷◌, ◌++◌}
use sim_o1_ofhmp_interfaces.Prelude.Result.{attribute_error}
use sim_o1_ofhmp_interfaces.Prelude.Exec.{Exec, pure, raise, ◌>>=◌, ◌>>◌}
use sim_o1_ofhmp_interfaces.Text.{of_nat}
use sim_o1_ofhmp_interfaces.Value.{Key, name, index, Value, str, num}
use sim_o1_ofhmp_interfaces.DictFactory.{update_key, delete_key}
use sim_o1_ofhmp_interfaces.DictFactory.Registry.{get_template}
use sim_o1_ofhmp_interfaces.Server.{running, Device, set_data, names}

-- `DictFactory.get_template(t).data`
unfoldable pub template : String → Exec Device Value
unfolding get_template
template t s = (get_template s.templates t, s)

-- `template.update_key(path, value)` and `template.delete_key(path)`
unfoldable pub updated : Value → List Key → Value → Exec Device Value
unfolding update_key
updated v p x s = (update_key v p x false, s)

unfoldable pub appended : Value → List Key → Value → Exec Device Value
unfolding update_key
appended v p x s = (update_key v p x true, s)

unfoldable pub deleted : Value → List Key → Exec Device Value
unfolding delete_key
deleted v p s = (delete_key v p, s)

abbrev server : List Key
server = names ("ietf-netconf-server:netconf-server" ∷ [])

abbrev pub to_endpoints : List Key
to_endpoints =
    names ("ietf-netconf-server:netconf-server" ∷ "listen" ∷ "endpoints" ∷ "endpoint" ∷ [])

unfoldable pub ssh_endpoint_config : ℕ → Exec Device Value
unfolding template updated appended deleted of_nat
ssh_endpoint_config port = do
  v0 ← template "ietf-netconf-server"
  v ← deleted v0 (server ++ names ("call-home" ∷ []))
  e0 ← template "ssh-endpoint"
  e1 ← updated e0 (names ("name" ∷ [])) (str ("ssh-endpoint-" <> of_nat port))
  parameters ← template "ssh-server-parameters"
  e2 ← updated e1 (names ("ssh" ∷ "ssh-server-parameters" ∷ [])) parameters
  e ← updated e2 (names ("ssh" ∷ "tcp-server-parameters" ∷ "local-port" ∷ [])) (num port)
  w ← appended v to_endpoints e
  set_data running "ietf-netconf-server" w "merge"
  pure e

-- `crypto.get_certificate_fingerprint(crypto.ca_cert)`: no method of `CryptoUtils` writes `ca_cert`, and
-- the class does not annotate it, so that reading it raises.
abbrev ca_fingerprint : Exec Device String
ca_fingerprint = raise attribute_error

unfoldable pub get_netconf_server_parameters_updated_keys : Exec Device Value
unfolding template updated
get_netconf_server_parameters_updated_keys = do
  v ← template "netconf-server-parameters"
  f ← ca_fingerprint
  updated v
      (name "client-identity-mappings" ∷ name "cert-to-name" ∷ index 0 ∷ name "fingerprint" ∷ [])
      (str f)

unfoldable pub tls_endpoint_config : ℕ → Exec Device (Unit {0})
unfolding template updated appended deleted of_nat get_netconf_server_parameters_updated_keys
tls_endpoint_config port = do
  v0 ← template "ietf-netconf-server"
  v ← deleted v0 (server ++ names ("call-home" ∷ []))
  e0 ← template "tls-endpoint"
  e1 ← updated e0 (names ("name" ∷ [])) (str ("tls-endpoint-" <> of_nat port))
  parameters ← template "tls-server-parameters"
  e2 ← updated e1 (names ("tls" ∷ "tls-server-parameters" ∷ [])) parameters
  mappings ← get_netconf_server_parameters_updated_keys
  e3 ← updated e2 (names ("tls" ∷ "netconf-server-parameters" ∷ [])) mappings
  e ← updated e3 (names ("tls" ∷ "tcp-server-parameters" ∷ "local-port" ∷ [])) (num port)
  w ← appended v to_endpoints e
  set_data running "ietf-netconf-server" w "merge"
