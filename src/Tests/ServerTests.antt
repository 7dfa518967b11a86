-- ===== src/Tests/ServerTests.antt =====
-- Endpoints, keys and the other templates on a device without any.
use sim_o1_ofhmp_interfaces.Prelude.{true, none, some, [], ◌∷◌, ◌≡◌, refl}
use sim_o1_ofhmp_interfaces.Prelude.Result.{ok}
use sim_o1_ofhmp_interfaces.Text.{of_nat}
use sim_o1_ofhmp_interfaces.Value.{Value, index, str, get_path, put}
use sim_o1_ofhmp_interfaces.DictFactory.{assign}
use sim_o1_ofhmp_interfaces.DictFactory.Registry.{find}
use sim_o1_ofhmp_interfaces.Config.Reload.{Config, reload}
use sim_o1_ofhmp_interfaces.Server.{running, operational, fields}
use sim_o1_ofhmp_interfaces.Server.Endpoints.{ssh_endpoint_config}
use sim_o1_ofhmp_interfaces.Server.Features.{
  Crypto, configure_keys, configure_system, configure_nacm, nacm_enabled, at_key, to_cert, to_root,
}
use sim_o1_ofhmp_interfaces.Server.Written.{
  device, connections_of, Configures, entry_at, ssh_endpoint_config-listed, configure_keys-written,
}
use sim_o1_ofhmp_interfaces.Ves.Listing.{ssh}

abbrev config : Config
config = record (reload (λ v. none) []) {
  netconf_username = "netconf";
  netconf_password = "netconf!";
}

ssh_endpoint_config-listed_example :
    (e : Value) × ((ssh_endpoint_config 8300 (device config)).0 ≡ ok e)
    × Configures (ssh_endpoint_config 8300 (device config)).1 e
    × (connections_of e ≡ ssh "ssh-endpoint-8300" 8300 "netconf" "netconf!" ∷ [])
unfolding of_nat
ssh_endpoint_config-listed_example = ssh_endpoint_config-listed config 8300

abbrev crypto : Crypto
crypto = record {
  public_key_ssh = "ssh-rsa A";
  public_key = "A";
  private_key = "B";
  certificate = "C";
  certificate_smo = "D";
  ca_certificate = "E";
  ca_certificate_smo = "F";
}

configure_keys-written_example :
    (v w : Value) × ((configure_keys crypto (device config)).0 ≡ ok tt)
    × ((configure_keys crypto (device config)).1.writes
        ≡ record { datastore = running; xpath = "ietf-keystore"; contents = v; operation = "merge" }
          ∷ record {
            datastore = operational;
            xpath = "ietf-keystore";
            contents = v;
            operation = "merge";
          }
          ∷ record {
            datastore = running;
            xpath = "ietf-truststore";
            contents = w;
            operation = "merge";
          }
          ∷ record {
            datastore = operational;
            xpath = "ietf-truststore";
            contents = w;
            operation = "merge";
          }
          ∷ [])
    × (entry_at v (index 0) ("public-key" ∷ []) ≡ some (str "ssh-rsa A"))
    × (entry_at v (index 1) ("public-key" ∷ []) ≡ some (str "A"))
    × (entry_at v (index 0) ("cleartext-private-key" ∷ []) ≡ some (str "B"))
    × (entry_at v (index 1) ("cleartext-private-key" ∷ []) ≡ some (str "B"))
    × (get_path v (at_key (index 0) (to_cert (index 0))) ≡ some (str "C"))
    × (get_path v (at_key (index 1) (to_cert (index 0))) ≡ some (str "C"))
    × (get_path v (at_key (index 1) (to_cert (index 1))) ≡ some (str "D"))
    × (get_path w (to_root (index 0)) ≡ some (str "E"))
    × (get_path w (to_root (index 1)) ≡ some (str "F"))
configure_keys-written_example = configure_keys-written config crypto

abbrev system : Value
system = fields (
    (
      "ietf-system",
      fields (
          (
            "system",
            fields (
                ("contact", str "Network Topology Simulator")
                ∷ ("hostname", str "du")
                ∷ ("onap-system:web-ui", str "http://10.0.0.2")
                ∷ []),
          )
          ∷ []),
    )
    ∷ [])

system_written :
    (configure_system "du" "10.0.0.2" (device config)).1.writes
    ≡ record { datastore = running; xpath = ""; contents = system; operation = "merge" }
      ∷ record { datastore = operational; xpath = ""; contents = system; operation = "merge" }
      ∷ []
unfolding configure_system device find assign put
system_written = refl

nacm_written :
    (configure_nacm true (device config)).1.writes
    ≡ record {
      datastore = running;
      xpath = "ietf-netconf-acm";
      contents = nacm_enabled;
      operation = "replace";
    }
      ∷ record {
        datastore = operational;
        xpath = "ietf-netconf-acm";
        contents = nacm_enabled;
        operation = "merge";
      }
      ∷ []
unfolding configure_nacm device find
nacm_written = refl
