-- ===== src/Server/Features.antt =====
-- The features that write one template each: base/src/feature/ietf_system.py, netconf_acm.py and
-- ietf_keystore_truststore.py. A feature registers its templates when it is created.
use sim_o1_ofhmp_interfaces.Prelude.{String, ◌<>◌, Bool, true, false, List, [], ◌∷◌, if◌then◌else◌}
use sim_o1_ofhmp_interfaces.Prelude.Exec.{Exec, modify, ◌>>=◌, ◌>>◌}
use sim_o1_ofhmp_interfaces.Value.{Key, name, index, Value, str, bool}
use sim_o1_ofhmp_interfaces.DictFactory.Registry.{add_template}
use sim_o1_ofhmp_interfaces.Server.{running, operational, Device, set_data, fields, items, names}
use sim_o1_ofhmp_interfaces.Server.Endpoints.{template, updated}

-- `DictFactory.add_template(t, …)`
unfoldable registered : String → Value → Exec Device (Unit {0})
unfolding add_template
registered t v = modify (λ s. record s { templates = add_template s.templates t v })

abbrev pub ietf_system : Value
ietf_system = fields (
    (
      "ietf-system",
      fields (
          (
            "system",
            fields (
                ("contact", str "Network Topology Simulator")
                ∷ ("hostname", str "TO_BE_REPLACED_HOSTNAME")
                ∷ ("onap-system:web-ui", str "TO_BE_REPLACED_URL")
                ∷ []),
          )
          ∷ []),
    )
    ∷ [])

-- `IetfSystemFeature`, with the name and the address of the container.
unfoldable pub configure_system : String → String → Exec Device (Unit {0})
unfolding registered template updated
configure_system hostname ip = do
  registered "ietf-system" ietf_system
  v ← template "ietf-system"
  v1 ← updated v (names ("ietf-system" ∷ "system" ∷ "hostname" ∷ [])) (str hostname)
  v2 ←
      updated v1 (names ("ietf-system" ∷ "system" ∷ "onap-system:web-ui" ∷ []))
        (str ("http://" <> ip))
  set_data running "" v2 "merge"
  set_data operational "" v2 "merge"

abbrev group : String → List Value → Value
group n users = fields (("name", str n) ∷ ("user-name", items users) ∷ [])

abbrev pub nacm_enabled : Value
nacm_enabled = fields (
    (
      "nacm",
      fields (
          ("enable-nacm", bool true)
          ∷ (
            "groups",
            fields (
                (
                  "group",
                  items (
                      group "sudo" (str "sudo" ∷ str "oranuser" ∷ [])
                      ∷ group "smo" (str "smo" ∷ [])
                      ∷ group "hybrid-odu" (str "hybrid-odu" ∷ [])
                      ∷ group "carrier" (str "carrier" ∷ [])
                      ∷ []),
                )
                ∷ []),
          )
          ∷ []),
    )
    ∷ [])

abbrev pub nacm_disabled : Value
nacm_disabled = fields (("nacm", fields (("enable-nacm", bool false) ∷ [])) ∷ [])

-- `NetconfAcmFeature`
unfoldable pub configure_nacm : Bool → Exec Device (Unit {0})
unfolding registered template
configure_nacm enabled = do
  registered "netconf-acm-enabled" nacm_enabled
  registered "netconf-acm-disabled" nacm_disabled
  v ← template (if enabled then "netconf-acm-enabled" else "netconf-acm-disabled")
  set_data running "ietf-netconf-acm" v "replace"
  set_data operational "ietf-netconf-acm" v "merge"

abbrev certificate : String → Value
certificate n = fields (("name", str n) ∷ ("cert-data", str "CERT_TO_BE_REPLACED") ∷ [])

abbrev key_pair : String → String → List Value → Value
key_pair n format certificates = fields (
    ("name", str n)
    ∷ ("public-key-format", str format)
    ∷ ("public-key", str "PUB_KEY_TO_BE_REPLACED")
    ∷ ("private-key-format", str "ietf-crypto-types:rsa-private-key-format")
    ∷ ("cleartext-private-key", str "PRIV_KEY_TO_BE_REPLACED")
    ∷ ("certificates", fields (("certificate", items certificates) ∷ []))
    ∷ [])

abbrev pub ietf_keystore : Value
ietf_keystore = fields (
    (
      "ietf-keystore:keystore",
      fields (
          (
            "asymmetric-keys",
            fields (
                (
                  "asymmetric-key",
                  items (
                      key_pair "serverkey-ssh" "ietf-crypto-types:ssh-public-key-format"
                        (certificate "servercert-smo" ∷ [])
                      ∷ key_pair "serverkey-tls" "ietf-crypto-types:subject-public-key-info-format"
                          (certificate "servercert-odu" ∷ certificate "servercert-smo" ∷ [])
                      ∷ []),
                )
                ∷ []),
          )
          ∷ []),
    )
    ∷ [])

abbrev root : String → Value
root n = fields (("name", str n) ∷ ("cert-data", str "TO_BE_REPLACED") ∷ [])

abbrev pub ietf_truststore : Value
ietf_truststore = fields (
    (
      "ietf-truststore:truststore",
      fields (
          (
            "certificate-bags",
            fields (
                (
                  "certificate-bag",
                  items (
                      fields (
                        ("name", str "cacerts")
                        ∷ ("description", str "CA Certificates")
                        ∷ ("certificate", items (root "root_odu_cert" ∷ root "root_smo_cert" ∷ []))
                        ∷ [])
                      ∷ []),
                )
                ∷ []),
          )
          ∷ []),
    )
    ∷ [])

-- What `CryptoUtils` gives, without markers.
pub record Crypto : Type 0 where
  pub public_key_ssh : String
  pub public_key : String
  pub private_key : String
  pub certificate : String
  pub certificate_smo : String
  pub ca_certificate : String
  pub ca_certificate_smo : String

-- The path below one of the keys.
abbrev pub at_key : Key → List Key → List Key
at_key i p = name "ietf-keystore:keystore" ∷ name "asymmetric-keys" ∷ name "asymmetric-key" ∷ i ∷ p

abbrev pub to_cert : Key → List Key
to_cert i = name "certificates" ∷ name "certificate" ∷ i ∷ name "cert-data" ∷ []

abbrev pub to_root : Key → List Key
to_root i =
    name "ietf-truststore:truststore"
    ∷ name "certificate-bags"
    ∷ name "certificate-bag"
    ∷ index 0
    ∷ name "certificate"
    ∷ i
    ∷ name "cert-data"
    ∷ []

unfoldable keystore_of : Crypto → Value → Exec Device Value
unfolding updated
keystore_of c v = do
  v1 ← updated v (at_key (index 0) (names ("public-key" ∷ []))) (str c.public_key_ssh)
  v2 ← updated v1 (at_key (index 0) (names ("cleartext-private-key" ∷ []))) (str c.private_key)
  v3 ← updated v2 (at_key (index 0) (to_cert (index 0))) (str c.certificate)
  v4 ← updated v3 (at_key (index 1) (names ("public-key" ∷ []))) (str c.public_key)
  v5 ← updated v4 (at_key (index 1) (names ("cleartext-private-key" ∷ []))) (str c.private_key)
  v6 ← updated v5 (at_key (index 1) (to_cert (index 0))) (str c.certificate)
  updated v6 (at_key (index 1) (to_cert (index 1))) (str c.certificate_smo)

-- `IetfKeystoreTruststoreFeature`
unfoldable pub configure_keys : Crypto → Exec Device (Unit {0})
unfolding registered template updated keystore_of
configure_keys c = do
  registered "ietf-keystore" ietf_keystore
  registered "ietf-truststore" ietf_truststore
  v ← template "ietf-keystore"
  k ← keystore_of c v
  set_data running "ietf-keystore" k "merge"
  set_data operational "ietf-keystore" k "merge"
  w ← template "ietf-truststore"
  w1 ← updated w (to_root (index 0)) (str c.ca_certificate)
  w2 ← updated w1 (to_root (index 1)) (str c.ca_certificate_smo)
  set_data running "ietf-truststore" w2 "merge"
  set_data operational "ietf-truststore" w2 "merge"
